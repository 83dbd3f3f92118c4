-- ===== src/Vtpm/Disk/Laws.antt =====
-- crates/vtpm/src/lib.rs: `write_atomic` over a directory whose calls keep to their documentation.
use tpm2_library.Common.{
  ℕ, List, length, Option, none, some, Result, ok, err, ◌≡◌, ◌≢◌, refl, sym, ap, ◌∙◌, arith,
}
use tpm2_library.Vtpm.Error.{IoError, VtpmError, io}
use tpm2_library.Vtpm.Disk.{
  Disk, CachePath, cache_file, temp_file, write_atomic, written, renamed, remove_temp,
}

-- A call touches only the files that it names; what it writes is read back, also behind a rename; and
-- a rename that fails changes nothing. A write that fails may leave anything in its file. The length of
-- a file is that of what is read of it.
pub record IsDisk {F : Type 0} (d : Disk F) : Type 0 where
  pub measures :
      (p : CachePath) (bytes : List ℕ) (f : F)
      → d.read p f ≡ ok bytes
      → d.file_len p f ≡ ok (length bytes)
  pub write_reads :
      (p : CachePath) (bytes : List ℕ) (f : F)
      → (d.write_all p bytes f).0 ≡ none
      → d.read p ((d.write_all p bytes f).1) ≡ ok bytes
  pub write_others :
      (p q : CachePath) (bytes : List ℕ) (f : F)
      → q ≢ p
      → d.read q ((d.write_all p bytes f).1) ≡ d.read q f
  pub rename_reads :
      (p q : CachePath) (f : F)
      → (d.rename p q f).0 ≡ none
      → d.read q ((d.rename p q f).1) ≡ d.read p f
  pub rename_others :
      (p q r : CachePath) (f : F) → r ≢ p → r ≢ q → d.read r ((d.rename p q f).1) ≡ d.read r f
  pub rename_fails :
      (p q r : CachePath) (f : F) (e : IoError)
      → (d.rename p q f).0 ≡ some e
      → d.read r ((d.rename p q f).1) ≡ d.read r f
  pub remove_others :
      (p q : CachePath) (f : F) → q ≢ p → d.read q ((d.remove_file p f).1) ≡ d.read q f

not_temp : (h j : ℕ) → cache_file j ≢ temp_file h
not_temp h j e = cc

module _ {F : Type 0} (d : Disk F) (laws : IsDisk d) (h : ℕ) (bytes : List ℕ) (f : F) where
  -- What may be read of the cache files afterwards.
  pub record IsAtomic (result : Result VtpmError (Unit {0}) × F) : Type 0 where
    pub others : (j : ℕ) → j ≢ h → d.read (cache_file j) result.1 ≡ d.read (cache_file j) f
    pub stored : result.0 ≡ ok tt → d.read (cache_file h) result.1 ≡ ok bytes
    pub kept :
        (e : VtpmError)
        → result.0 ≡ err e
        → d.read (cache_file h) result.1 ≡ d.read (cache_file h) f

  remove_temp-reads :
      (e : VtpmError) (g : F)
      → ((j : ℕ) → d.read (cache_file j) g ≡ d.read (cache_file j) f)
      → IsAtomic (remove_temp d h e g)
  unfolding remove_temp
  remove_temp-reads e g same = record {
    others = λ j ne. laws.remove_others (temp_file h) (cache_file j) g (not_temp h j) ∙ same j;
    stored = λ never. cc;
    kept = λ e' eq. laws.remove_others (temp_file h) (cache_file h) g (not_temp h h) ∙ same h;
  }

  renamed-IsAtomic :
      (g : F)
      → d.read (temp_file h) g ≡ ok bytes
      → ((j : ℕ) → d.read (cache_file j) g ≡ d.read (cache_file j) f)
      → (r : Option IoError × F) → d.rename (temp_file h) (cache_file h) g ≡ r
      → IsAtomic (renamed d h r)
  unfolding renamed
  renamed-IsAtomic g temp same (none, f') eq = record {
    others = λ j ne.
        ap (λ (r : Option IoError × F). d.read (cache_file j) r.1) (sym eq)
        ∙ laws.rename_others (temp_file h) (cache_file h) (cache_file j) g (not_temp h j)
            (λ e. ne (ground (arith, e)))
        ∙ same j;
    stored = λ done.
        ap (λ (r : Option IoError × F). d.read (cache_file h) r.1) (sym eq)
        ∙ laws.rename_reads (temp_file h) (cache_file h) g (ap (λ (r : Option IoError × F). r.0) eq)
        ∙ temp;
    kept = λ e never. cc;
  }
  renamed-IsAtomic g temp same (some e, f') eq = remove_temp-reads (io e) f' (λ j.
      ap (λ (r : Option IoError × F). d.read (cache_file j) r.1) (sym eq)
      ∙ laws.rename_fails (temp_file h) (cache_file h) (cache_file j) g e
          (ap (λ (r : Option IoError × F). r.0) eq)
      ∙ same j)

  written-IsAtomic :
      (r : Option IoError × F) → d.write_all (temp_file h) bytes f ≡ r → IsAtomic (written d h r)
  unfolding written
  written-IsAtomic (none, g) eq =
      renamed-IsAtomic g
        (ap (λ (r : Option IoError × F). d.read (temp_file h) r.1) (sym eq)
          ∙ laws.write_reads (temp_file h) bytes f (ap (λ (r : Option IoError × F). r.0) eq))
        (λ j.
          ap (λ (r : Option IoError × F). d.read (cache_file j) r.1) (sym eq)
          ∙ laws.write_others (temp_file h) (cache_file j) bytes f (not_temp h j))
        (d.rename (temp_file h) (cache_file h) g) refl
  written-IsAtomic (some e, g) eq = remove_temp-reads (io e) g (λ j.
      ap (λ (r : Option IoError × F). d.read (cache_file j) r.1) (sym eq)
      ∙ laws.write_others (temp_file h) (cache_file j) bytes f (not_temp h j))

  -- On a directory whose calls keep to their documentation, `write_atomic` that succeeds leaves exactly
  -- the new bytes in the cache file, one that fails leaves the file as it was, and the other cache files
  -- are never touched.
  pub write_atomic-IsAtomic : IsAtomic (write_atomic d h bytes f)
  unfolding write_atomic
  write_atomic-IsAtomic = written-IsAtomic (d.write_all (temp_file h) bytes f) refl
