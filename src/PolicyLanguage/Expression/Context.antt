-- ===== src/PolicyLanguage/Expression/Context.antt =====
-- crates/policy-language/src/lib.rs: the banks that `TpmPolicyContext::new` accepts.
use tpm2_library.Common.{
  ℕ, List, [], ◌∷◌, Result, ok, ◌≡◌, ◌≢◌, ◌⊎◌, inl, inr, sym, ap, ◌∙◌, arith, All, length, ◌==◌,
  ==_iff, Bool-cases, >>=-ok, subst,
}
use tpm2_library.Common.Maps.{Map}
use tpm2_library.PolicyLanguage.Error.{TpmPolicyError}
use tpm2_library.PolicyLanguage.Session.{Digest}
use tpm2_library.PolicyLanguage.Expression.{TpmPolicyContext, count_pcrs, new_context}

abbrev pub AllEmptyOr : ℕ → Map ℕ (Map ℕ Digest) → Type 0
AllEmptyOr n = All (λ (b : ℕ × Map ℕ Digest). (length b.1 ≡ 0) ⊎ (length b.1 ≡ n))

count-nonzero :
    (n count : ℕ) (banks : Map ℕ (Map ℕ Digest))
    → n ≢ 0
    → count_pcrs n banks ≡ ok count
    → (count ≡ n) × All (λ (b : ℕ × Map ℕ Digest). length b.1 ≡ n) banks
unfolding count_pcrs
count-nonzero n count [] ne e = (ground (arith, e), tt)
count-nonzero n count ((alg, bank) ∷ rest) ne e = elim (Bool-cases (n == length bank)) [
  | inl same ↦ ground (arith, same, ==_iff n (length bank), ==_iff n 0, count-nonzero n count rest)
  | inr differs ↦ absurd (ground (arith, differs, ==_iff n 0))
]

full_or_empty :
    (n : ℕ) (banks : Map ℕ (Map ℕ Digest))
    → All (λ (b : ℕ × Map ℕ Digest). length b.1 ≡ n) banks
    → AllEmptyOr n banks
full_or_empty n [] h = tt
full_or_empty n ((alg, bank) ∷ rest) (here, later) = (inr here, full_or_empty n rest later)

first_bank :
    (count alg : ℕ) (bank : Map ℕ Digest) (rest : Map ℕ (Map ℕ Digest))
    → count_pcrs 0 ((alg, bank) ∷ rest) ≡ ok count
    → count_pcrs (length bank) rest ≡ ok count
unfolding count_pcrs
first_bank count alg bank rest e = ground (arith, e, ==_iff (length bank) (length bank))

count-zero :
    (count : ℕ) (banks : Map ℕ (Map ℕ Digest))
    → count_pcrs 0 banks ≡ ok count
    → AllEmptyOr count banks
count-zero count [] e = tt
count-zero count ((alg, bank) ∷ rest) e =
    let next = first_bank count alg bank rest e in
    elim (Bool-cases (length bank == 0)) [
      | inl empty ↦
          let zero_bank = (==_iff (length bank) 0).0 empty in
          (
            inl zero_bank,
            count-zero count rest (ap (λ n. count_pcrs n rest) (sym zero_bank) ∙ next),
          )
      | inr filled ↦
          let (eq, all) =
            count-nonzero (length bank) count rest
              (λ e0. cc (filled, (==_iff (length bank) 0).1 e0)) next in
          (
            inr (sym eq),
            full_or_empty count rest
                (subst (λ n. All (λ (b : ℕ × Map ℕ Digest). length b.1 ≡ n) rest) (sym eq) all),
          )
    ]

-- In a context that `TpmPolicyContext::new` accepts, each bank is empty or has exactly as many entries
-- as the context's count of PCRs, and the names and banks are the given ones.
pub new_context-banks :
    (names : Map ℕ (List ℕ)) (pcrs : Map ℕ (Map ℕ Digest)) (c : TpmPolicyContext)
    → new_context names pcrs ≡ ok c
    → (c.names ≡ names) × ((c.pcrs ≡ pcrs) × AllEmptyOr c.pcr_count pcrs)
unfolding new_context
new_context-banks names pcrs c e =
    let build : ℕ → Result TpmPolicyError TpmPolicyContext =
      λ n. ok (record { names = names; pcrs = pcrs; pcr_count = n }) in
    let (n, counted, done) = >>=-ok (count_pcrs 0 pcrs) build e in
    let same : n ≡ c.pcr_count = cc (done) in
    (cc (done), (cc (done), subst (λ k. AllEmptyOr k pcrs) same (count-zero n pcrs counted)))

-- An empty bank that comes first goes unnoticed, whatever the size of the bank behind it.
pub new_context-empty_bank :
    (names : Map ℕ (List ℕ)) (a b : ℕ) (bank : Map ℕ Digest)
    → new_context names ((a, []) ∷ ((b, bank) ∷ []))
      ≡ ok (record { names = names; pcrs = (a, []) ∷ ((b, bank) ∷ []); pcr_count = length bank })
unfolding new_context count_pcrs
new_context-empty_bank names a b bank = ground (arith, ==_iff (length bank) (length bank))
