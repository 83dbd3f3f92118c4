-- ===== src/Protocol/Writer/Append.antt =====
-- A marshaler appends bytes to what the writer holds: `Emits m bytes`. The room left decides
-- between success, with exactly `bytes` appended, and an error.
use tpm2_library.Common.{
  ℕ, ◌+◌, ◌-◌, ◌≤◌, ◌<◌, List, [], ◌∷◌, ◌++◌, length, take, drop, ok, err, ◌≡◌, refl, ap, sym, ◌∙◌,
  arith, append_assoc, length-append, length-take, length-drop, take-append_eq, drop-append_add,
  drop-drop, take-append-drop, Bool-cases, ltb, true, All, inl, inr, lt→ltb, le→ltb,
}
use tpm2_library.Common.Nat.{usize_mod}
use native.Mathlib.Decide.{dec_le}
use native.Mathlib.Nat.{add_assoc, add-zero}
use tpm2_library.Protocol.Error.{TpmError, buffer_overflow}
use tpm2_library.Protocol.Writer.{
  TpmWriter, Marshal, as_bytes, pure, ◌>>◌, put, write_bytes, write_to, marshal_each,
}

-- The cursor never passes the end, and a slice's length fits a usize.
pub record IsValid (w : TpmWriter) : Type 0 where
  pub within : w.cursor ≤ length w.buffer
  pub addressable : length w.buffer < usize_mod

pub length-put :
    (bytes : List ℕ) (w : TpmWriter)
    → w.cursor + length bytes ≤ length w.buffer
    → length ((put bytes w).buffer) ≡ length w.buffer
length-put bytes w h = omega (
  arith,
  length-append (take w.cursor w.buffer) (bytes ++ drop (w.cursor + length bytes) w.buffer),
  length-append bytes (drop (w.cursor + length bytes) w.buffer),
  length-take w.cursor w.buffer,
  length-drop (w.cursor + length bytes) w.buffer,
)

pub put-IsValid :
    (bytes : List ℕ) (w : TpmWriter)
    → IsValid w
    → w.cursor + length bytes ≤ length w.buffer
    → IsValid (put bytes w)
put-IsValid bytes w v h = omega (arith, length-put bytes w h)

module _ (w : TpmWriter) (a : List ℕ) (within : w.cursor ≤ length w.buffer) where
  after : List ℕ
  after = drop (w.cursor + length a) w.buffer

  length_front : length (take w.cursor w.buffer ++ a) ≡ w.cursor + length a
  length_front =
      omega (arith, length-append (take w.cursor w.buffer) a, length-take w.cursor w.buffer)

  take-put : take (w.cursor + length a) ((put a w).buffer) ≡ take w.cursor w.buffer ++ a
  take-put =
      rw (← append_assoc (take w.cursor w.buffer) a _)
        (take-append_eq _ (take w.cursor w.buffer ++ a) _ length_front)

  drop-put :
      (n : ℕ)
      → drop (w.cursor + length a + n) ((put a w).buffer) ≡ drop (w.cursor + length a + n) w.buffer
  drop-put n =
      rw (← append_assoc (take w.cursor w.buffer) a (drop (w.cursor + length a) w.buffer)) (
        drop-append_add _ n (take w.cursor w.buffer ++ a) _ length_front
        ∙ drop-drop n (w.cursor + length a) w.buffer)

  -- Two appends are one append of both.
  pub put-put : (b : List ℕ) → put b (put a w) ≡ put (a ++ b) w
  put-put b = simp (take-put, drop-put (length b), append_assoc, length-append a b) (simp add_assoc)

pub put-nil : (w : TpmWriter) → IsValid w → put [] w ≡ w
put-nil w v = rw add-zero (ap (λ (b : List ℕ). record w { buffer = b }) (take-append-drop _ _))

pub as_bytes-put :
    (bytes : List ℕ) (w : TpmWriter)
    → IsValid w
    → w.cursor + length bytes ≤ length w.buffer
    → as_bytes (put bytes w) ≡ as_bytes w ++ bytes
unfolding as_bytes
as_bytes-put bytes w v h = take-put w bytes v.within

-- With too little room the marshaler fails, and what it has written is a prefix of `bytes`.
pub record Overflow (m : Marshal) (bytes : List ℕ) (w : TpmWriter) : Type 0 where
  pub error : TpmError
  pub written : List ℕ
  pub unwritten : List ℕ
  pub result : m w ≡ (err error, put written w)
  pub is_prefix : bytes ≡ written ++ unwritten
  pub room : w.cursor + length written ≤ length w.buffer

pub record Emits (m : Marshal) (bytes : List ℕ) : Type 0 where
  pub fits :
      (w : TpmWriter)
      → IsValid w
      → w.cursor + length bytes ≤ length w.buffer
      → m w ≡ (ok tt, put bytes w)
  pub overflows :
      (w : TpmWriter) → IsValid w → length w.buffer < w.cursor + length bytes → Overflow m bytes w

pub pure-Emits : Emits pure []
pure-Emits = record {
  fits = λ w v h. ap (λ x. (ok tt, x)) (sym (put-nil w v));
  overflows = λ w v h. absurd (omega (arith, v.within));
}

-- Nothing of `bytes` is written where `m` leaves the writer alone.
Overflow-unchanged :
    (m : Marshal) (bytes : List ℕ) (w : TpmWriter) (e : TpmError)
    → IsValid w
    → m w ≡ (err e, w)
    → Overflow m bytes w
Overflow-unchanged m bytes w e v h = record {
  error = e;
  written = [];
  unwritten = bytes;
  result = h ∙ ap (λ x. (err e, x)) (sym (put-nil w v));
  is_prefix = refl;
  room = omega (arith, v.within);
}

fit_usize :
    (bytes : List ℕ) (w : TpmWriter)
    → IsValid w
    → w.cursor + length bytes ≤ length w.buffer
    → ltb (w.cursor + length bytes) usize_mod ≡ true
fit_usize bytes w v h = lt→ltb _ _ (omega (arith, v.addressable))

pub write_bytes_fails :
    (bytes : List ℕ) (w : TpmWriter)
    → length w.buffer < w.cursor + length bytes
    → (e : TpmError) × (write_bytes bytes w ≡ (err e, w))
unfolding write_bytes
write_bytes_fails bytes w h = elim (Bool-cases (ltb (w.cursor + length bytes) usize_mod)) [
  | inl small ↦ (
    buffer_overflow w.cursor (length bytes) (length w.buffer - w.cursor),
    rw (small, write_to, lt→ltb _ _ h),
  )
  | inr large ↦ (buffer_overflow w.cursor (length bytes) 0, rw (large, write_to))
]

-- Bytes are appended whole or not at all.
pub write_bytes-Emits : (bytes : List ℕ) → Emits (write_bytes bytes) bytes
unfolding write_bytes
write_bytes-Emits bytes = record {
  fits = λ w v h. rw (fit_usize bytes w v h, write_to, le→ltb _ _ h);
  overflows = λ w v h.
      let (e, failed) = write_bytes_fails bytes w h in
      Overflow-unchanged (write_bytes bytes) bytes w e v failed;
}

module _ (m n : Marshal) (a b : List ℕ) (p : Emits m a) (q : Emits n b) where
  length_both : length (a ++ b) ≡ length a + length b
  length_both = length-append a b

  >>-fits :
      (w : TpmWriter)
      → IsValid w
      → w.cursor + length (a ++ b) ≤ length w.buffer
      → (m >> n) w ≡ (ok tt, put (a ++ b) w)
  >>-fits w v h =
      let room : w.cursor + length a ≤ length w.buffer = omega (arith, length_both) in
      let room' : w.cursor + length a + length b ≤ length ((put a w).buffer) =
        omega (arith, length_both, length-put a w room) in
      rw (p.fits w v room) (
        q.fits (put a w) (put-IsValid a w v room) room'
        ∙ ap (λ x. (ok tt, x)) (put-put w a v.within b))

  >>-overflows_first :
      (w : TpmWriter)
      → IsValid w
      → length w.buffer < w.cursor + length a
      → Overflow (m >> n) (a ++ b) w
  >>-overflows_first w v h =
      let o = p.overflows w v h in
      record {
        error = o.error;
        written = o.written;
        unwritten = o.unwritten ++ b;
        result = rw o.result;
        is_prefix = rw o.is_prefix (append_assoc o.written o.unwritten b);
        room = o.room;
      }

  >>-overflows_second :
      (w : TpmWriter)
      → IsValid w
      → w.cursor + length a ≤ length w.buffer
      → length w.buffer < w.cursor + length (a ++ b)
      → Overflow (m >> n) (a ++ b) w
  >>-overflows_second w v room h =
      let o =
        q.overflows (put a w) (put-IsValid a w v room)
          (omega (arith, length_both, length-put a w room)) in
      record {
        error = o.error;
        written = a ++ o.written;
        unwritten = o.unwritten;
        result =
            rw (p.fits w v room)
              (o.result ∙ ap (λ x. (err o.error, x)) (put-put w a v.within o.written));
        is_prefix = rw o.is_prefix (sym (append_assoc a o.written o.unwritten));
        room = omega (arith, o.room, length-append a o.written, length-put a w room);
      }

  pub >>-Emits : Emits (m >> n) (a ++ b)
  >>-Emits = record {
    fits = >>-fits;
    overflows = λ w v h. elim (dec_le (w.cursor + length a) (length w.buffer)) [
      | yes room ↦ >>-overflows_second w v room h
      | no full ↦ >>-overflows_first w v (omega arith)
    ];
  }

module _ {A : Type 0} (encode : A → List ℕ) where
  abbrev pub encode_each : List A → List ℕ
  encode_each [] = []
  encode_each (x ∷ xs) = encode x ++ encode_each xs

module _ {A : Type 0} (marshal : A → Marshal) (encode : A → List ℕ) where
  pub marshal_each-Emits :
      (P : A → Type 0)
      → ((x : A) → P x → Emits (marshal x) (encode x))
      → (xs : List A) → All P xs
      → Emits (marshal_each marshal xs) (encode_each encode xs)
  unfolding marshal_each
  marshal_each-Emits P h [] v = pure-Emits
  marshal_each-Emits P h (x ∷ xs) (px, v) =
      >>-Emits (marshal x) (marshal_each marshal xs) (encode x) (encode_each encode xs) (h x px)
        (marshal_each-Emits P h xs v)
