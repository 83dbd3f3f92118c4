-- ===== src/Vtpm/Cache/Invariant.antt =====
-- crates/vtpm/src/lib.rs: the invariant of `VtpmCache` that the comments of its fields describe.
use tpm2_library.Common.{ℕ, ◌≤◌, none, some, ◌≡◌}
use tpm2_library.Common.Maps.{IsMap, get}
use native.Mathlib.Decide.{ℕ_discrete}
use tpm2_library.Protocol.Constants.Ht.{persistent, discriminant}
use tpm2_library.Vtpm.Env.{Env}
use tpm2_library.Vtpm.Cache.{
  VtpmKey, VtpmCache, key_at, handle_type, transient_start, transient_end,
}

module _ {P N C Y F : Type 0} (E : Env P N C Y F) where
  -- Every context has published the name of its public area under its own handle; a live handle
  -- that is a context resolves by the name that the context published, and every other live handle
  -- is a persistent one.
  pub record IsWellFormed (s : VtpmCache P N C Y F) : Type 0 where
    pub unique : IsMap ℕ_discrete s.contexts
    pub placed : (h : ℕ) (k : VtpmKey P C Y) → key_at h s.contexts ≡ some k → k.handle ≡ h
    pub published :
        (h : ℕ) (k : VtpmKey P C Y)
        → key_at h s.contexts ≡ some k
        → (n : N) × (key_at h s.names ≡ some n) × (E.make_name k.public ≡ some n)
    pub live :
        (h : ℕ) (n : N)
        → key_at h s.names ≡ some n
        → (k : VtpmKey P C Y) × (key_at h s.contexts ≡ some k)
    pub own :
        (n : N) (h : ℕ) (k : VtpmKey P C Y)
        → get E.name_eq n s.handles ≡ some h
        → key_at h s.contexts ≡ some k
        → key_at h s.names ≡ some n
    pub foreign :
        (n : N) (h : ℕ)
        → get E.name_eq n s.handles ≡ some h
        → key_at h s.contexts ≡ none
        → handle_type h ≡ discriminant persistent
    pub in_range :
        (transient_start ≤ s.next_virtual_handle) × (s.next_virtual_handle ≤ transient_end)
