-- ===== src/PolicyLanguage/Commands/Reading.antt =====
-- crates/policy-language/src/expression.rs: how `from_commands` goes over a stream of commands, and
-- takes the branches of a disjunction off its stack.
use tpm2_library.Common.{
  ℕ, zero, suc, ◌+◌, ◌<◌, ◌≤◌, List, [], ◌∷◌, ◌++◌, ok, ◌>>=◌, map, length, ◌≡◌, refl, ap, ◌∙◌,
  arith, Result-cases, inl, inr, le→ltb,
}
use tpm2_library.PolicyLanguage.Session.{Digest}
use tpm2_library.PolicyLanguage.Expression.{
  TpmPolicyExpression, or_of, of_list, build_and_branch, TpmCommand, policy_or_command,
}
use tpm2_library.PolicyLanguage.Commands.{Stack, pop_branches, push, read_command, read_commands}

pub read_append :
    (cs ds : List TpmCommand) (stack : Stack)
    → read_commands (cs ++ ds) stack ≡ (read_commands cs stack >>= λ s. read_commands ds s)
unfolding read_commands
read_append [] ds stack = refl
read_append (c ∷ cs) ds stack = elim (Result-cases (read_command c stack)) [
  | inl (next, e) ↦ rw e (read_append cs ds next)
  | inr (reason, e) ↦ rw e refl
]

pub read_two :
    (cs ds : List TpmCommand) (a b c : Stack)
    → read_commands cs a ≡ ok b
    → read_commands ds b ≡ ok c
    → read_commands (cs ++ ds) a ≡ ok c
read_two cs ds a b c first second =
    read_append cs ds a ∙ ap (λ r. r >>= λ s. read_commands ds s) first ∙ second

-- The branches on top of a stack, the last one first.
abbrev pub stacked : Stack → Stack → Stack
stacked [] stack = stack
stacked (x ∷ xs) stack = stacked xs (x ∷ stack)

pub length-stacked : (xs stack : Stack) → length (stacked xs stack) ≡ length xs + length stack
length-stacked [] stack = omega arith
length-stacked (x ∷ xs) stack = omega (arith, length-stacked xs (x ∷ stack))

pop_one_more :
    (n : ℕ) (stack left : Stack) (branch : List TpmPolicyExpression)
    (acc branches : List TpmPolicyExpression)
    → pop_branches n stack acc ≡ ok (branches, branch ∷ left)
    → pop_branches (suc n) stack acc ≡ ok (build_and_branch branch ∷ branches, left)
unfolding pop_branches
pop_one_more zero [] left branch acc branches e = cc
pop_one_more zero (x ∷ stack) left branch acc branches e = ground (arith, e)
pop_one_more (suc n) [] left branch acc branches e = cc
pop_one_more (suc n) (x ∷ stack) left branch acc branches e =
    pop_one_more n stack left branch (build_and_branch x ∷ acc) branches e

pub pop-stacked :
    (xs stack : Stack)
    → pop_branches (length xs) (stacked xs stack) [] ≡ ok (map build_and_branch xs, stack)
unfolding pop_branches
pop-stacked [] stack = refl
pop-stacked (x ∷ xs) stack =
    pop_one_more (length xs) (stacked xs (x ∷ stack)) stack x [] (map build_and_branch xs)
      (pop-stacked xs (x ∷ stack))

pub read_or :
    (digests : List Digest) (stack left : Stack) (top branches : List TpmPolicyExpression)
    → 0 < length stack
    → length digests ≤ length stack
    → pop_branches (length digests) stack [] ≡ ok (branches, top ∷ left)
    → read_commands (policy_or_command digests ∷ []) stack
      ≡ ok ((top ++ (or_of (of_list branches) ∷ [])) ∷ left)
unfolding read_commands read_command push
read_or digests [] left top branches some_branch enough e = absurd (omega arith)
read_or digests (x ∷ stack) left top branches some_branch enough e =
    rw (le→ltb (length (x ∷ stack)) (length digests) enough, e) refl
