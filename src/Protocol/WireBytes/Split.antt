-- ===== src/Protocol/WireBytes/Split.antt =====
-- crates/protocol/src/lib.rs: the inputs of the casts of `TpmWireBytes` and their views.
use tpm2_library.Common.{
  ℕ, List, ◌++◌, length, ok, ◌≡◌, ◌↔◌, arith, length-take, length-append, take-append-drop,
  take-append_eq, drop-append_eq,
}
use tpm2_library.Protocol.WireBytes.{cast, cast_prefix}

-- A prefix cast succeeds exactly on a concatenation whose first part has the view's length.
pub cast_prefix_iff :
    (n : ℕ) (buf head tail : List ℕ)
    → (cast_prefix n buf ≡ ok (head, tail)) ↔ ((length head ≡ n) × (buf ≡ head ++ tail))
unfolding cast_prefix
cast_prefix_iff n buf head tail = (there, back)
  where
    there : cast_prefix n buf ≡ ok (head, tail) → (length head ≡ n) × (buf ≡ head ++ tail)
    there e = ground (arith, take-append-drop n buf, length-take n buf)

    back : (length head ≡ n) × (buf ≡ head ++ tail) → cast_prefix n buf ≡ ok (head, tail)
    back (h, e) =
        ground (
          arith,
          length-append head tail,
          take-append_eq n head tail h,
          drop-append_eq n head tail h,
        )

-- A cast of the whole input succeeds exactly where the input has the view's length, and then the
-- view is the input.
pub cast_iff :
    (n : ℕ) (buf view : List ℕ) → (cast n buf ≡ ok view) ↔ ((length buf ≡ n) × (buf ≡ view))
unfolding cast
cast_iff n buf view = ground arith
