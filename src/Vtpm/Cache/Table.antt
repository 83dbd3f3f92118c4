-- ===== src/Vtpm/Cache/Table.antt =====
-- crates/vtpm/src/lib.rs: the table `parent_to_children` that `remove_subtree` builds first.
use tpm2_library.Common.{
  ℕ, List, [], ◌∷◌, ◌++◌, some, ok, ◌≡◌, ◌≢◌, ◌⊎◌, inl, inr, sym, ap, ◌∙◌, arith, subst, >>=-ok,
  map_err, map_err-ok,
}
use tpm2_library.Common.Maps.{
  Map, IsMap, In, In-append_left, In-append_right, In-append_cases, get, get-In, get-insert_same,
  get-insert_other,
}
use native.Mathlib.Decide.{ℕ_discrete}
use tpm2_library.Vtpm.Error.{marshal_failed}
use tpm2_library.Vtpm.Env.{Env, to_vec}
use tpm2_library.Vtpm.Cache.{VtpmKey, VtpmCache, key_at}
use tpm2_library.Vtpm.Cache.Remove.{
  failed, bytes_discrete, Children, children_of, add_child, parent_to_children, or_default,
}

module _ {P N C Y F : Type 0} (E : Env P N C Y F) where
  -- The context `k` at `h` is listed under the encoding `b` of its parent.
  pub record Lists (entries : Map ℕ (VtpmKey P C Y)) (b : List ℕ) (h : ℕ) (p : P) : Type 0 where
    pub key : VtpmKey P C Y
    pub entry : In (h, key) entries
    pub encoding : to_vec E.public_codec key.parent ≡ ok b
    pub its : p ≡ key.public

  children-add_child_same :
      (b : List ℕ) (c : ℕ × P) (t : Children E)
      → children_of E b (add_child E b c t) ≡ children_of E b t ++ (c ∷ [])
  unfolding children_of add_child
  children-add_child_same b c t =
      ap (or_default E) (get-insert_same bytes_discrete b (children_of E b t ++ (c ∷ [])) t)

  children-add_child_other :
      (b d : List ℕ) (c : ℕ × P) (t : Children E)
      → d ≢ b
      → children_of E d (add_child E b c t) ≡ children_of E d t
  unfolding children_of add_child
  children-add_child_other b d c t ne =
      ap (or_default E) (get-insert_other bytes_discrete b d (children_of E b t ++ (c ∷ [])) t ne)

  module _ (s : VtpmCache P N C Y F) where
    built_step :
        (j : ℕ) (k : VtpmKey P C Y) (rest : Map ℕ (VtpmKey P C Y)) (t last : Children E)
        → parent_to_children E s ((j, k) ∷ rest) t ≡ ok last
        → (a : List ℕ) × (to_vec E.public_codec k.parent ≡ ok a)
          × (parent_to_children E s rest (add_child E a (j, k.public) t) ≡ ok last)
    unfolding parent_to_children
    built_step j k rest t last e =
        let encoded =
          map_err (λ reason. failed (marshal_failed reason) s) (to_vec E.public_codec k.parent) in
        let (a, made, next) =
          >>=-ok encoded (λ a. parent_to_children E s rest (add_child E a (j, k.public) t)) e in
        (
          a,
          map_err-ok (λ reason. failed (marshal_failed reason) s) (to_vec E.public_codec k.parent)
              made,
          next,
        )

    built_sound :
        (entries : Map ℕ (VtpmKey P C Y)) (t last : Children E) (b : List ℕ) (h : ℕ) (p : P)
        → parent_to_children E s entries t ≡ ok last
        → In (h, p) (children_of E b last)
        → In (h, p) (children_of E b t) ⊎ Lists entries b h p
    unfolding parent_to_children
    built_sound [] t last b h p e found =
        inl (subst (λ x. In (h, p) (children_of E b x)) (ground (arith, e)) found)
    built_sound ((j, k) ∷ rest) t last b h p e found =
        let (a, made, next) = built_step j k rest t last e in
        elim (built_sound rest (add_child E a (j, k.public) t) last b h p next found) [
          | inr later ↦ inr (record {
            key = later.key;
            entry = inr later.entry;
            encoding = later.encoding;
            its = later.its;
          })
          | inl before ↦ elim (bytes_discrete b a) [
            | no differs ↦
                inl
                  (subst (In (h, p)) (children-add_child_other a b (j, k.public) t differs) before)
            | yes same ↦
                let there : In (h, p) (children_of E b t ++ ((j, k.public) ∷ [])) =
                  subst (In (h, p))
                    (ap (λ x. children_of E b (add_child E x (j, k.public) t)) (sym same)
                      ∙ children-add_child_same b (j, k.public) t)
                    before in
                elim (In-append_cases (h, p) (children_of E b t) ((j, k.public) ∷ []) there) [
                  | inl old ↦ inl old
                  | inr new ↦ elim new [
                    | inl eq ↦ inr (record {
                      key = k;
                      entry = inl (ap (λ (x : ℕ × P). (x.0, k)) eq);
                      encoding = made ∙ ap ok (sym same);
                      its = ap (λ (x : ℕ × P). x.1) eq;
                    })
                    | inr never ↦ absurd never
                  ]
                ]
          ]
        ]

    built_keeps :
        (entries : Map ℕ (VtpmKey P C Y)) (t last : Children E) (b : List ℕ) (h : ℕ) (p : P)
        → parent_to_children E s entries t ≡ ok last
        → In (h, p) (children_of E b t)
        → In (h, p) (children_of E b last)
    unfolding parent_to_children
    built_keeps [] t last b h p e found =
        subst (λ x. In (h, p) (children_of E b x)) (ground (arith, e)) found
    built_keeps ((j, k) ∷ rest) t last b h p e found =
        let (a, _, next) = built_step j k rest t last e in
        built_keeps rest (add_child E a (j, k.public) t) last b h p next
          (elim (bytes_discrete b a) [
            | no differs ↦
                subst (In (h, p)) (sym (children-add_child_other a b (j, k.public) t differs)) found
            | yes same ↦
                subst (In (h, p))
                  (sym (
                    ap (λ x. children_of E b (add_child E x (j, k.public) t)) (sym same)
                    ∙ children-add_child_same b (j, k.public) t))
                  (In-append_left (h, p) (children_of E b t) ((j, k.public) ∷ []) found)
          ])

    built_complete :
        (entries : Map ℕ (VtpmKey P C Y)) (t last : Children E) (b : List ℕ) (h : ℕ)
        (k : VtpmKey P C Y)
        → parent_to_children E s entries t ≡ ok last
        → In (h, k) entries
        → to_vec E.public_codec k.parent ≡ ok b
        → In (h, k.public) (children_of E b last)
    unfolding parent_to_children
    built_complete [] t last b h k e found made = elim found [ ]
    built_complete ((j, i) ∷ rest) t last b h k e (inr later) made =
        let (a, _, next) = built_step j i rest t last e in
        built_complete rest (add_child E a (j, i.public) t) last b h k next later made
    built_complete ((j, i) ∷ rest) t last b h k e (inl here) made =
        let (a, encoded, next) = built_step j i rest t last e in
        let same : i ≡ k = ap (λ (x : ℕ × VtpmKey P C Y). x.1) (sym here) in
        let eq : a ≡ b =
          ground (
            arith,
            encoded,
            made,
            ap (λ (x : VtpmKey P C Y). to_vec E.public_codec x.parent) same,
          ) in
        built_keeps rest (add_child E a (j, i.public) t) last b h k.public next (
          subst (In (h, k.public))
            (sym (
              ap (λ x. children_of E b (add_child E x (j, i.public) t)) eq
              ∙ children-add_child_same b (j, i.public) t))
            (In-append_right (h, k.public) (children_of E b t) ((j, i.public) ∷ [])
              (inl (ap (λ (x : ℕ × VtpmKey P C Y). (x.0, x.1.public)) here))))

    module _ (unique : IsMap ℕ_discrete s.contexts) (table : Children E)
        (built : parent_to_children E s s.contexts [] ≡ ok table) (b : List ℕ) (h : ℕ) where
      -- A child in the table is a context whose parent has that encoding.
      pub table_sound :
          (p : P)
          → In (h, p) (children_of E b table)
          → (k : VtpmKey P C Y) × (key_at h s.contexts ≡ some k)
            × (to_vec E.public_codec k.parent ≡ ok b)
            × (p ≡ k.public)
      unfolding children_of get
      table_sound p found = elim (built_sound s.contexts [] table b h p built found) [
        | inl never ↦ absurd never
        | inr l ↦ (l.key, unique h l.key l.entry, l.encoding, l.its)
      ]

      -- Every context stands in the table under the encoding of its parent.
      pub table_complete :
          (k : VtpmKey P C Y)
          → key_at h s.contexts ≡ some k
          → to_vec E.public_codec k.parent ≡ ok b
          → In (h, k.public) (children_of E b table)
      table_complete k there made =
          built_complete s.contexts [] table b h k built (get-In ℕ_discrete h k s.contexts there)
            made
