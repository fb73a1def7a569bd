-- ===== src/Devfs.antt =====
-- src/fs/devfs.c: the device files. The keyboard is the list of the characters that wait in it, and
-- `printed` the characters handed to print_serial_char and console_putchar, the last one first.
use cone_os.Prelude.{
  ℕ, zero, suc, Bool, true, false, Option, none, some, List, [], ◌∷◌, length, take, drop, replicate,
  if◌then◌else◌,
}
use cone_os.Ramfs.Names.{name_equal}

-- enum devfs_device
pub data Device : Type 0 where
  unknown : Device
  console : Device
  null : Device
  zeros : Device

abbrev pub is_device : Device → Bool
is_device unknown = false
is_device console = true
is_device null = true
is_device zeros = true

pub record Terminal : Type 0 where
  pub keyboard : List ℕ
  pub printed : List ℕ

abbrev pub console_name : List ℕ
console_name = b'c' ∷ b'o' ∷ b'n' ∷ b's' ∷ b'o' ∷ b'l' ∷ b'e' ∷ []

abbrev pub null_name : List ℕ
null_name = b'n' ∷ b'u' ∷ b'l' ∷ b'l' ∷ []

abbrev pub zero_name : List ℕ
zero_name = b'z' ∷ b'e' ∷ b'r' ∷ b'o' ∷ []

abbrev pub devices : List (List ℕ × Device)
devices = (console_name, console) ∷ (null_name, null) ∷ (zero_name, zeros) ∷ []

unfoldable pub device_in : List (List ℕ × Device) → List ℕ → Device
device_in [] path = unknown
device_in ((name, device) ∷ rest) path =
    let found = device_in rest path in if name_equal name path then device else found

-- devfs_device_for_path; `path` is not null.
unfoldable pub device_for_path : List ℕ → Device
device_for_path path = device_in devices path

-- What devfs_read gives: an error, bytes, or a task blocked until there is input, which then tries
-- again.
pub data Input : Type 0 where
  no_input : Input
  bytes : List ℕ → Input
  waiting : Input

-- devfs_read; `buffer` is not null.
unfoldable pub read : Device → ℕ → Terminal → Input × Terminal
read unknown count t = (no_input, t)
read null count t = (bytes [], t)
read zeros count t = (bytes (replicate count 0), t)
read console zero t = (bytes [], t)
read console (suc n) t = elim t.keyboard [
  | [] ↦ (waiting, t)
  | c ∷ cs ↦ (bytes (take (suc n) (c ∷ cs)), record t { keyboard = drop (suc n) (c ∷ cs) })
]

unfoldable pub print : List ℕ → Terminal → Terminal
print [] t = t
print (c ∷ cs) t = print cs (record t { printed = c ∷ t.printed })

-- devfs_write: the number of bytes written, or none.
unfoldable pub write : Device → List ℕ → Terminal → Option ℕ × Terminal
write unknown cs t = (none, t)
write console cs t = (some (length cs), print cs t)
write null cs t = (some (length cs), t)
write zeros cs t = (some (length cs), t)

-- devfs_stat: the size of a device file is 0.
unfoldable pub stat : List ℕ → Option ℕ
stat path = if is_device (device_for_path path) then some 0 else none

unfoldable pub is_directory : List ℕ → Bool
is_directory [] = true
is_directory (c ∷ cs) = false

unfoldable pub nth_name : List (List ℕ × Device) → ℕ → Option (List ℕ)
nth_name [] index = none
nth_name ((name, device) ∷ rest) zero = some name
nth_name ((name, device) ∷ rest) (suc index) = nth_name rest index

-- devfs_readdir: the name of the entry, whose size is 0 and whose type is a file.
unfoldable pub readdir : List ℕ → ℕ → Option (List ℕ)
readdir path index = if is_directory path then nth_name devices index else none
