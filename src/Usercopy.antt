-- ===== src/Usercopy.antt =====
-- src/mm/usercopy.c: the checks and copies between the kernel and user memory. The current address
-- space is a set of services; the kernel's buffer is a list of bytes.
pub mod Access
pub mod Copy
pub mod Fetch
mod Tests
use cone_os.Prelude.{
  ℕ, zero, suc, ◌+◌, ◌-◌, ◌/◌, ◌%◌, min, Bool, true, false, not, ◌&&◌, ◌||◌, Option, none, some,
  List, [], ◌++◌, take, drop, length, ltb, leb, ◌==◌, if◌then◌else◌,
}

-- A page's flags: VMM_USER, VMM_WRITABLE, VMM_COPY_ON_WRITE.
pub record Entry : Type 0 where
  pub physical : ℕ
  pub user : Bool
  pub writable : Bool
  pub copy_on_write : Bool

-- vmm_space_query and vmm_space_resolve_cow of the loaded space, and the bytes at a physical address.
pub record UserMemory (S : Type 0) : Type 0 where
  pub query : S → ℕ → Option Entry
  pub resolve_cow : ℕ → S → Bool × S
  pub read_bytes : ℕ → ℕ → S → List ℕ
  pub write_bytes : ℕ → List ℕ → S → S

-- USER_ADDRESS_LIMIT
abbrev pub address_limit : ℕ
address_limit = 0x800000000000

abbrev pub user_range_valid : ℕ → ℕ → Bool
user_range_valid address size = ltb address address_limit && leb size (address_limit - address)

abbrev pub floor : ℕ → ℕ
floor address = address - address % 4096

-- What each call can end in; the result is 0 or 1 in the source.
pub data Answer : Type 0 where
  out_of_fuel : Answer
  refused : Answer
  done : Answer

module _ {S : Type 0} (memory : UserMemory S) where
  abbrev pub grants : Bool → Option Entry → Bool
  grants write none = false
  grants write (some e) = e.user && (not write || e.writable || e.copy_on_write)

  -- for (page = …; page < end; page += PMM_PAGE_SIZE)
  unfoldable pub accessible_from : ℕ → ℕ → ℕ → Bool → S → Answer
  accessible_from zero page end write s = out_of_fuel
  accessible_from (suc fuel) page end write s =
      let rest = accessible_from fuel (page + 4096) end write s in
      if not (ltb page end)
      then done
      else if grants write (memory.query s page)
      then rest
      else refused

  unfoldable pub user_range_accessible : ℕ → ℕ → Bool → S → Answer
  user_range_accessible address size write s =
      if not (user_range_valid address size)
      then refused
      else if size == 0
      then done
      else accessible_from (size / 4096 + 3) (floor address) (address + size) write s

  -- A page that is written to is made the process's own first.
  unfoldable pub resolve : Bool → ℕ → S → Option Entry × S
  resolve write address s = elim (memory.query s address) [
    | none ↦ (none, s)
    | some e ↦
        if write && e.copy_on_write
        then (let (ok, t) = memory.resolve_cow address s in
            if ok then (memory.query t address, t) else (none, t))
        else (some e, s)
  ]

  abbrev pub permits : Bool → Entry → Bool
  permits write e = e.user && (not write || e.writable)

  abbrev pub chunk : ℕ → ℕ → ℕ
  chunk address left = min (4096 - address % 4096) left

  -- while (copied < size), towards the user: the rest of the buffer is still to be written.
  unfoldable pub copy_out : ℕ → ℕ → List ℕ → S → Answer × S
  copy_out zero address bytes s = (out_of_fuel, s)
  copy_out (suc fuel) address bytes s =
      if length bytes == 0
      then (done, s)
      else let (found, t) = resolve true address s in
        elim found [
          | none ↦ (refused, t)
          | some e ↦
              let n = chunk address (length bytes) in
              if permits true e
              then copy_out fuel (address + n) (drop n bytes)
                  (memory.write_bytes e.physical (take n bytes) t)
              else (refused, t)
        ]

  -- The same loop, from the user: the bytes that are read, with `left` to come.
  unfoldable pub copy_in : ℕ → ℕ → ℕ → S → Answer × List ℕ
  copy_in zero address left s = (out_of_fuel, [])
  copy_in (suc fuel) address left s =
      if left == 0 then (done, []) else elim (memory.query s address) [
        | none ↦ (refused, [])
        | some e ↦
            let n = chunk address left in
            let (answer, bytes) = copy_in fuel (address + n) (left - n) s in
            if permits false e
            then (answer, memory.read_bytes e.physical n s ++ bytes)
            else (refused, [])
      ]

  -- The kernel's buffer is not null.
  unfoldable pub copy_to_user : ℕ → List ℕ → S → Answer × S
  copy_to_user destination bytes s =
      if length bytes == 0
      then (done, s)
      else if user_range_valid destination (length bytes)
      then copy_out (suc (length bytes)) destination bytes s
      else (refused, s)

  unfoldable pub copy_from_user : ℕ → ℕ → S → Answer × List ℕ
  copy_from_user source size s =
      if size == 0
      then (done, [])
      else if user_range_valid source size
      then copy_in (suc size) source size s
      else (refused, [])
