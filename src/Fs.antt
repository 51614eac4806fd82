-- ===== src/Fs.antt =====
-- The files of the device, end/arduino/fs_store.cpp, over LittleFS, which is a parameter.
pub mod Expiry
pub mod Memory
mod Examples
use gik_view.Prelude.{
  ℕ, zero, suc, ◌+◌, ◌-◌, ◌*◌, ◌/◌, ◌%◌, ◌^◌, ◌≡◌, Bool, true, false, ◌&&◌, ◌||◌, Option, none,
  some, List, [], ◌∷◌, ◌++◌, Bytes, length, ltb, leb, ◌==◌, if◌then◌else◌,
}
use gik_view.Pem.{der_to_pem_string}

-- The paths of config.h, and those of the files that are being written.
pub data FileName : Type 0 where
  ca_cert : FileName
  bs_cert : FileName
  bs_key : FileName
  dev_cert : FileName
  dev_chain : FileName
  dev_key : FileName
  dev_exp : FileName
  new_cert : FileName
  new_chain : FileName
  new_key : FileName

unfoldable pub file_id : FileName → ℕ
file_id ca_cert = 0
file_id bs_cert = 1
file_id bs_key = 2
file_id dev_cert = 3
file_id dev_chain = 4
file_id dev_key = 5
file_id dev_exp = 6
file_id new_cert = 7
file_id new_chain = 8
file_id new_key = 9

unfoldable pub same_file : FileName → FileName → Bool
unfolding file_id
same_file a b = file_id a == file_id b

-- LittleFS. `stored` is what is on the flash after a file was opened for writing, printed to and
-- closed: the text, less of it when the flash is full, or what was there when it cannot be opened.
pub record LittleFs : Type 1 where
  pub Files : Type 0
  pub content : Files → FileName → Option Bytes
  pub stored : Files → FileName → Bytes → Option Bytes
  pub write : FileName → Bytes → Files → Files
  pub remove : FileName → Files → Files
  pub rename : FileName → FileName → Files → Files

-- Writing and removing change the named file only. Renaming an existing file to a free name moves
-- its content.
pub record IsLittleFs (fs : LittleFs) : Type 0 where
  pub content-write :
      (n : FileName) (text : Bytes) (f : fs.Files) (m : FileName)
      → fs.content (fs.write n text f) m
        ≡ (if same_file n m then fs.stored f n text else fs.content f m)
  pub content-remove :
      (n : FileName) (f : fs.Files) (m : FileName)
      → fs.content (fs.remove n f) m ≡ (if same_file n m then none else fs.content f m)
  pub content-rename :
      (a b : FileName) (f : fs.Files) (m : FileName)
      → fs.content f b ≡ none
      → fs.content (fs.rename a b f) m
        ≡ (if same_file b m then fs.content f a else if same_file a m then none else fs.content f m)

-- Decimal digits of a number, for as many as `fuel` allows.
unfoldable pub decimal : ℕ → ℕ → Bytes
decimal zero n = []
decimal (suc fuel) n =
    let front = decimal fuel (n / 10) in
    if ltb n 10 then (48 + n) ∷ [] else front ++ ((48 + n % 10) ∷ [])

-- `f.print((unsigned long) exp)`: the number modulo 2 ^ 32, which has at most ten digits.
unfoldable pub print_ulong : ℕ → Bytes
unfolding decimal
print_ulong n = decimal 10 (n % 2 ^ 32)

unfoldable pub is_space : ℕ → Bool
is_space c = c == 32 || (leb 9 c && leb c 13)

unfoldable pub skip_space : Bytes → Bytes
unfolding is_space
skip_space [] = []
skip_space (c ∷ cs) = elim (is_space c) [ true ↦ skip_space cs | false ↦ c ∷ cs ]

-- The value of the digits in front.
unfoldable pub digits_value : ℕ → Bytes → ℕ
digits_value acc [] = acc
digits_value acc (c ∷ cs) = elim (leb 48 c && leb c 57) [
  | true ↦ digits_value (acc * 10 + (c - 48)) cs
  | false ↦ acc
]

-- A value that does not fit is replaced by the largest one.
unfoldable pub clamp_ulong : ℕ → ℕ
clamp_ulong v = if ltb v (2 ^ 32) then v else 2 ^ 32 - 1

-- `strtoul(text, nullptr, 10)`
unfoldable pub signed_value : Bytes → ℕ
unfolding clamp_ulong digits_value
signed_value [] = 0
signed_value (c ∷ cs) =
    if c == b'-'
    then (2 ^ 32 - clamp_ulong (digits_value 0 cs)) % 2 ^ 32
    else if c == b'+'
    then clamp_ulong (digits_value 0 cs)
    else clamp_ulong (digits_value 0 (c ∷ cs))

unfoldable pub strtoul : Bytes → ℕ
unfolding skip_space signed_value
strtoul text = signed_value (skip_space text)

abbrev pub present : Option Bytes → Bool
present none = false
present (some text) = true

-- The String is empty if the file is not there.
abbrev pub text_of : Option Bytes → Bytes
text_of none = []
text_of (some text) = text

module _ (fs : LittleFs) where
  abbrev pub exists : FileName → fs.Files → Bool
  exists n f = present (fs.content f n)

  unfoldable pub read_file : FileName → fs.Files → Bytes
  read_file n f = text_of (fs.content f n)

  -- The text is that of `der_to_pem_string`: the same loop over pieces of 64 characters.
  unfoldable pub save_pem : FileName → Bytes → Bytes → fs.Files → fs.Files
  save_pem n label der f = fs.write n (der_to_pem_string der label) f

  unfoldable pub save_exp : ℕ → fs.Files → fs.Files
  save_exp e f = fs.write dev_exp (print_ulong e) f

  unfoldable pub read_exp : fs.Files → ℕ
  unfolding read_file
  read_exp f = if length (read_file dev_exp f) == 0 then 0 else strtoul (read_file dev_exp f)
