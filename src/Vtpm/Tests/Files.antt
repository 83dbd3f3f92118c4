-- ===== src/Vtpm/Tests/Files.antt =====
-- `write_atomic` of crates/vtpm on a directory in memory, where every call succeeds.
use tpm2_library.Common.{
  ◌>>=◌, length, ℕ, List, [], ◌∷◌, Bool, true, false, none, Result, ok, err, ◌≡◌, ◌≢◌, refl, ap,
  arith, ◌==◌, ==_iff, ==_refl, if◌then◌else◌, Bool-cases, inl, inr,
}
use tpm2_library.Vtpm.Error.{IoError, not_found}
use tpm2_library.Vtpm.Disk.{Disk, CachePath, cache_file, temp_file, write_atomic}
use tpm2_library.Vtpm.Disk.Laws.{IsDisk, IsAtomic, write_atomic-IsAtomic}

abbrev pub is_path : CachePath → CachePath → Bool
is_path (cache_file h) (cache_file j) = h == j
is_path (temp_file h) (temp_file j) = h == j
is_path (cache_file h) (temp_file j) = false
is_path (temp_file h) (cache_file j) = false

is_path_refl : (p : CachePath) → is_path p p ≡ true
is_path_refl (cache_file h) = ==_refl h
is_path_refl (temp_file h) = ==_refl h

is_path_other : (p q : CachePath) → q ≢ p → is_path q p ≡ false
is_path_other (cache_file h) (cache_file j) ne = elim (Bool-cases (j == h)) [
  | inl same ↦ absurd (ne (ap cache_file ((==_iff j h).0 same)))
  | inr differs ↦ differs
]
is_path_other (temp_file h) (temp_file j) ne = elim (Bool-cases (j == h)) [
  | inl same ↦ absurd (ne (ap temp_file ((==_iff j h).0 same)))
  | inr differs ↦ differs
]
is_path_other (cache_file h) (temp_file j) ne = refl
is_path_other (temp_file h) (cache_file j) ne = refl

abbrev pub Files : Type 0
Files = CachePath → Result IoError (List ℕ)

abbrev pub memory : Disk Files
memory = record {
  write_all = λ p bytes f. (none, λ q. if is_path q p then ok bytes else f q);
  rename =
      λ p q f. (none, λ r. if is_path r q then f p else if is_path r p then err not_found else f r);
  remove_file = λ p f. (none, λ q. if is_path q p then err not_found else f q);
  file_len = λ p f. f p >>= λ bytes. ok (length bytes);
  read = λ p f. f p;
}

pub memory-IsDisk : IsDisk memory
memory-IsDisk = record {
  measures = λ p bytes f e. ap (λ r. r >>= λ bytes. ok (length bytes)) e;
  write_reads = λ p bytes f e. ground (arith, is_path_refl p);
  write_others = λ p q bytes f ne. ground (arith, is_path_other p q ne);
  rename_reads = λ p q f e. ground (arith, is_path_refl q);
  rename_others = λ p q r f np nq. ground (arith, is_path_other p r np, is_path_other q r nq);
  rename_fails = λ p q r f e never. cc;
  remove_others = λ p q f ne. ground (arith, is_path_other p q ne);
}

abbrev pub no_files : Files
no_files p = err not_found

write_atomic-IsAtomic_example :
    IsAtomic memory memory-IsDisk 0x80000000
      (1 ∷ (2 ∷ []))
      no_files
      (write_atomic memory 0x80000000 (1 ∷ (2 ∷ [])) no_files)
write_atomic-IsAtomic_example =
    write_atomic-IsAtomic memory memory-IsDisk 0x80000000 (1 ∷ (2 ∷ [])) no_files
