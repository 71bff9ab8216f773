-- ===== src/Identity/KeyFile.antt =====
-- The secret key file of src/identity.rs. The file system is a parameter: its state is an argument
-- and a result of what changes it. Paths are texts.
use rust_ma_core.Common.{
  Str, Bytes, codes, Bool, true, ◌==◌, not, length, Option, none, some, ◌++◌, ok, err, >>-eq-ok,
  >>=-eq-ok, map_err-eq-ok, ◌∙◌, Result, map_err, fail_if, ◌>>=◌, ◌>>◌, ◌≡◌, refl, arith,
  if◌then◌else◌,
}
use rust_ma_core.Error.{ServiceResult, secret_key}

-- `Path::exists`, `fs::read`, `fs::create_dir_all`, `fs::write`, `fs::set_permissions`, and
-- `Path::parent`; the errors are texts.
pub record FileLib : Type 1 where
  pub Disk : Type 0
  pub exists : Disk → Str → Bool
  pub read : Disk → Str → Result Str Bytes
  pub create_dir_all : Disk → Str → Result Str Disk
  pub write : Disk → Str → Bytes → Result Str Disk
  pub set_permissions : Disk → Str → Disk
  pub parent : Str → Option Str
  pub read-write :
      (disk : Disk) (path : Str) (b : Bytes) {after : Disk}
      → write disk path b ≡ ok after
      → (exists after path ≡ true) × (read after path ≡ ok b)
  -- The permission to read is kept.
  pub read-set_permissions :
      (disk : Disk) (path : Str)
      → (exists (set_permissions disk path) path ≡ exists disk path)
        × (read (set_permissions disk path) path ≡ read disk path)

module _ (files : FileLib) where
  open files use {Disk, exists, read, create_dir_all, write, set_permissions, parent}

  -- `bytes.try_into()` for 32 bytes.
  unfoldable pub key_of_bytes : Str → Bytes → ServiceResult (Option Bytes)
  key_of_bytes path bytes =
      if length bytes == 32
      then ok (some bytes)
      else err (secret_key (codes "invalid key file length in " ++ path))

  unfoldable pub load_secret_key_bytes : Str → Disk → ServiceResult (Option Bytes)
  unfolding key_of_bytes
  load_secret_key_bytes path disk =
      if not (exists disk path)
      then ok none
      else do bytes ← map_err secret_key (read disk path); key_of_bytes path bytes

  unfoldable pub create_parent : Option Str → Disk → ServiceResult Disk
  create_parent none disk = ok disk
  create_parent (some dir) disk =
      map_err (λ e. secret_key (codes "failed to create dir " ++ (dir ++ (codes ": " ++ e))))
        (create_dir_all disk dir)

  -- `key_bytes` are the random bytes. An error leaves the disk as the step in front left it, which
  -- the result does not show.
  unfoldable pub generate_secret_key_file : Str → Bytes → Disk → ServiceResult (Bytes × Disk)
  unfolding create_parent
  generate_secret_key_file path key_bytes disk = do
    fail_if (exists disk path) (secret_key (codes "secret key already exists at " ++ path))
    with_dir ← create_parent (parent path) disk
    written ←
        map_err (λ e. secret_key (codes "failed to write " ++ (path ++ (codes ": " ++ e))))
          (write with_dir path key_bytes)
    ok (key_bytes, set_permissions written path)

  -- A generated key file is read back as the same key, and a second generation at its path is
  -- refused.
  pub load-generate_secret_key_file :
      (path : Str) (key_bytes other generated : Bytes) (disk after : Disk)
      → length key_bytes ≡ 32
      → generate_secret_key_file path key_bytes disk ≡ ok (generated, after)
      → (load_secret_key_bytes path after ≡ ok (some generated))
        × (generate_secret_key_file path other after
            ≡ err (secret_key (codes "secret key already exists at " ++ path)))
  unfolding generate_secret_key_file load_secret_key_bytes
  load-generate_secret_key_file path key_bytes other generated disk after len h =
      let (u, h1) = >>-eq-ok (fail_if (exists disk path) _) _ h in
      let (with_dir, p2, h2) = >>=-eq-ok (create_parent (parent path) disk) _ h1 in
      let (written, p3, h3) = >>=-eq-ok (map_err _ (write with_dir path key_bytes)) _ h2 in
      let (there, content) = files.read-write with_dir path key_bytes (map_err-eq-ok _ _ p3) in
      let (same_there, same_content) = files.read-set_permissions written path in
      let last : set_permissions written path ≡ after = ground (arith, h3) in
      let first : key_bytes ≡ generated = ground (arith, h3) in
      let found : exists after path ≡ true = rw (← last) (same_there ∙ there) in
      let kept : read after path ≡ ok key_bytes = rw (← last) (same_content ∙ content) in
      (rw (found, kept, len, first) refl, rw found refl)
