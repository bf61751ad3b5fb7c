-- ===== src/Mdk/Ramfs.antt =====
-- MDK/kernel/core/ramfs.c: the table of files, in the bytes in which C lays it out.
pub mod Copy
pub mod Files
pub mod Overlong
use bumbellbee_testing.Base.{
  ℕ, zero, suc, ◌+◌, ◌-◌, ◌*◌, ◌/◌, ◌%◌, ◌^◌, Bool, true, false, not, ◌&&◌, Option, none, some,
  List, [], ◌∷◌, ◌++◌, ltb, leb, ◌==◌, if◌then◌else◌, update,
}
use bumbellbee_testing.Base.Text.{codes, char_difference}
use bumbellbee_testing.Mdk.Console.{
  Arg, str, int, Call, vga_serial_printf, vga_serial_println, vga_serial_print,
}

-- `struct mdk_file`: 16 bytes of name, 128 of content, then the bytes `is_dir` and `active`.
abbrev pub file_size : ℕ
file_size = 146

abbrev pub max_files : ℕ
max_files = 32

-- The addresses of the fields of `files[i]`, from the start of the table.
abbrev pub name_of : ℕ → ℕ
name_of i = i * file_size

abbrev pub content_of : ℕ → ℕ
content_of i = i * file_size + 16

abbrev pub is_dir_of : ℕ → ℕ
is_dir_of i = i * file_size + 144

abbrev pub active_of : ℕ → ℕ
active_of i = i * file_size + 145

-- The bytes from `files` on, and the count.
pub record Ramfs : Type 0 where
  pub files : ℕ → ℕ
  pub num_files : ℕ

-- The bytes up to the terminator and the terminator itself, wherever they lead.
pub str_copy : ℕ → List ℕ → (ℕ → ℕ) → ℕ → ℕ
str_copy dst [] files = update files dst 0
str_copy dst (c ∷ src) files = str_copy (dst + 1) src (update files dst c)

-- The length of the string at an address, by fuel.
pub str_len : ℕ → (ℕ → ℕ) → ℕ → ℕ
str_len zero files s = 0
str_len (suc fuel) files s =
    let rest = 1 + str_len fuel files (s + 1) in if files s == 0 then 0 else rest

-- The string at an address, by fuel: what a loop to its terminator reads.
pub string_at : ℕ → (ℕ → ℕ) → ℕ → List ℕ
string_at zero files s = []
string_at (suc fuel) files s =
    let rest = files s ∷ string_at fuel files (s + 1) in if files s == 0 then [] else rest

-- The bytes of the string at an address against a text.
pub str_cmp : (ℕ → ℕ) → ℕ → List ℕ → ℕ
str_cmp files s [] = char_difference (files s) 0
str_cmp files s (c ∷ src) =
    if not (files s == 0) && files s == c
    then str_cmp files (s + 1) src
    else char_difference (files s) c

-- A string that starts in the table is looked at to the table's end at most.
abbrev pub table_size : ℕ
table_size = 32 * 146

pub ramfs_touch : List ℕ → List ℕ → Ramfs → Ramfs
ramfs_touch name content f =
    if leb max_files f.num_files
    then f
    else (let files = str_copy (name_of f.num_files) name f.files in
        let files = str_copy (content_of f.num_files) content files in
        let files = update files (is_dir_of f.num_files) 0 in
        record { files = update files (active_of f.num_files) 1; num_files = f.num_files + 1 })

unfoldable pub ramfs_mkdir : List ℕ → Ramfs → Ramfs
ramfs_mkdir name f =
    if leb max_files f.num_files
    then f
    else (let files = str_copy (name_of f.num_files) name f.files in
        let files = update files (is_dir_of f.num_files) 1 in
        record { files = update files (active_of f.num_files) 1; num_files = f.num_files + 1 })

-- The loop that clears the `active` bytes, by the rounds left and the index.
unfoldable pub deactivate : ℕ → ℕ → (ℕ → ℕ) → ℕ → ℕ
deactivate zero i files = files
deactivate (suc n) i files = deactivate n (i + 1) (update files (active_of i) 0)

unfoldable pub ramfs_init : Ramfs → Ramfs
ramfs_init f =
    let f : Ramfs = record { files = deactivate max_files 0 f.files; num_files = 0 } in
    let f = ramfs_touch (codes "motd") (codes "Welcome to MDK Mesh OS\n") f in
    ramfs_mkdir (codes "nodes") (ramfs_mkdir (codes "bin") f)

-- The padding loop of `ramfs_ls`, which runs at most 14 times.
padding : ℕ → List Call
padding zero = []
padding (suc n) = vga_serial_print (codes " ") ∷ padding n

-- What `ramfs_ls` prints of `files[i]`.
unfoldable pub ls_line : (ℕ → ℕ) → ℕ → List Call
unfolding padding
ls_line files i =
    let dir = not (files (is_dir_of i) == 0) in
    let name = string_at table_size files (name_of i) in
    let kind = if dir then codes "DIR " else codes "FILE" in
    let size =
      if dir
      then vga_serial_println (codes " <DIR>")
      else vga_serial_printf (codes " %d bytes\n")
          (int (str_len table_size files (content_of i)) ∷ []) in
    (vga_serial_printf (codes "%s  %s") (str kind ∷ str name ∷ [])
      ∷ padding (14 - str_len table_size files (name_of i)))
    ++ (size ∷ [])

unfoldable pub ls_loop : ℕ → ℕ → (ℕ → ℕ) → List Call
ls_loop zero i files = []
ls_loop (suc n) i files =
    (if files (active_of i) == 0 then [] else ls_line files i) ++ ls_loop n (i + 1) files

-- The calls that it makes, in their order.
unfoldable pub ramfs_ls : Ramfs → List Call
ramfs_ls f =
    vga_serial_println (codes "Type  Name            Size")
    ∷ vga_serial_println (codes "----  --------------  ----")
    ∷ ls_loop f.num_files 0 f.files

-- The test of the loop of `ramfs_cat`.
abbrev pub is_match : List ℕ → (ℕ → ℕ) → ℕ → Bool
is_match name files i =
    not (files (active_of i) == 0)
    && (files (is_dir_of i) == 0 && str_cmp files (name_of i) name == 0)

-- The first of `n` entries from `i` on that passes it.
unfoldable pub find_file : List ℕ → (ℕ → ℕ) → ℕ → ℕ → Option ℕ
find_file name files zero i = none
find_file name files (suc n) i =
    let rest = find_file name files n (i + 1) in if is_match name files i then some i else rest

abbrev pub cat_calls : Ramfs → Option ℕ → List Call
cat_calls f none = vga_serial_println (codes "Error: File not found.") ∷ []
cat_calls f (some i) =
    vga_serial_print (string_at table_size f.files (content_of i))
    ∷ vga_serial_print (codes "\n")
    ∷ []

pub ramfs_cat : List ℕ → Ramfs → List Call
ramfs_cat name f = cat_calls f (find_file name f.files f.num_files 0)
