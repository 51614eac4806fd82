-- ===== src/Fs/Memory.antt =====
-- A file system in memory that satisfies the laws: it keeps every text.
use gik_view.Prelude.{refl, Option, none, some, Bytes, if◌then◌else◌}
use gik_view.Fs.{FileName, LittleFs, IsLittleFs, same_file}

abbrev pub memory : LittleFs
memory = record {
  Files = FileName → Option Bytes;
  content = λ f n. f n;
  stored = λ f n text. some text;
  write = λ n text f m. if same_file n m then some text else f m;
  remove = λ n f m. if same_file n m then none else f m;
  rename = λ a b f m. if same_file b m then f a else if same_file a m then none else f m;
}

pub memory-IsLittleFs : IsLittleFs memory
memory-IsLittleFs = record {
  content-write = λ n text f m. refl;
  content-remove = λ n f m. refl;
  content-rename = λ a b f m e. refl;
}
