-- ===== src/Vtpm/Disk.antt =====
-- The cache directory as crates/vtpm/src/lib.rs uses it: the calls of `std::fs` on the files of one
-- directory are the operations of a record, and `write_atomic` is built of them.
pub mod Laws
use tpm2_library.Common.{ℕ, List, Option, none, some, Result, ok, err}
use tpm2_library.Vtpm.Error.{IoError, VtpmError, io}

-- `{handle:08x}.bin`, and `.{handle:08x}.bin.{pid}.tmp` for the process's own id.
pub data CachePath : Type 0 where
  cache_file : ℕ → CachePath
  temp_file : ℕ → CachePath

-- Each call says how it failed, if it did, and leaves a directory.
pub record Disk (F : Type 0) : Type 0 where
  -- `File::create`, `write_all` and `sync_all`, up to the first that fails
  pub write_all : CachePath → List ℕ → F → Option IoError × F
  pub rename : CachePath → CachePath → F → Option IoError × F
  pub remove_file : CachePath → F → Option IoError × F
  -- `fs::metadata(path)?.len()`
  pub file_len : CachePath → F → Result IoError ℕ
  pub read : CachePath → F → Result IoError (List ℕ)

module _ {F : Type 0} (d : Disk F) where
  remove_temp : ℕ → VtpmError → F → Result VtpmError (Unit {0}) × F
  remove_temp h reason f = let (_, f') = d.remove_file (temp_file h) f in (err reason, f')

  renamed : ℕ → Option IoError × F → Result VtpmError (Unit {0}) × F
  unfolding remove_temp
  renamed h (none, f) = (ok tt, f)
  renamed h (some e, f) = remove_temp h (io e) f

  written : ℕ → Option IoError × F → Result VtpmError (Unit {0}) × F
  unfolding remove_temp renamed
  written h (none, f) = renamed h (d.rename (temp_file h) (cache_file h) f)
  written h (some e, f) = remove_temp h (io e) f

  unfoldable pub write_atomic : ℕ → List ℕ → F → Result VtpmError (Unit {0}) × F
  unfolding written
  write_atomic h bytes f = written h (d.write_all (temp_file h) bytes f)
