-- ===== src/Vpn/Config/Render/Lists.antt =====
-- internal/vpn/config.go, splitList: the values of a list that is printed with commas.
use mathlib.Core.List.{append-nil}
use mist_ui.Vpn.Text.{
  is_space, trim_right, trim_right-append, trim_space, split, split-Free, split_at_sep, is_byte,
  Free, Free-append,
}
use mist_ui.Vpn.Config.{non_empty_parts, split_list}
use mist_ui.Vpn.Config.Render.{
  is_ender, is_special, starts, IsText, IsValue, IsValue-IsText, Values, after_comma, Free-weaken,
  trim_space_text, trim_space_padded,
}
use mist_ui.Base.{◌≡◌, refl, ◌∙◌, ◌≢◌, true, List, [], ◌∷◌, ◌++◌, arith, Bytes}

starts-append : (v w : Bytes) → starts v ≡ true → starts (v ++ w) ≡ true
starts-append [] w h = absurd (ground arith)
starts-append (c ∷ v) w h = h

append_not_empty : (v w : Bytes) → starts v ≡ true → v ++ w ≢ []
append_not_empty [] w h = absurd (ground arith)
append_not_empty (c ∷ v) w h = λ q. cc

right-list :
    (v : Bytes) (vs : List Bytes)
    → IsValue v
    → Values vs
    → trim_right is_space (v ++ after_comma vs) ≡ v ++ after_comma vs
right-list v [] h k = rw (append-nil v) h.right
right-list v (w ∷ vs) h k =
    trim_right-append is_space v (b',' ∷ b' ' ∷ (w ++ after_comma vs))
      (trim_right-append is_space (b',' ∷ b' ' ∷ []) (w ++ after_comma vs) (right-list w vs k.0 k.1)
        (append_not_empty w (after_comma vs) k.0.starts))
      (λ q. cc)

Free-list : (vs : List Bytes) → Values vs → Free is_ender (after_comma vs)
Free-list [] h = tt
Free-list (v ∷ vs) h = (
  refl,
  (refl, Free-append is_ender v (after_comma vs) (IsValue-IsText v h.0).is_free (Free-list vs h.1)),
)

-- A line can carry a list of values.
pub list-IsText :
    (v : Bytes) (vs : List Bytes) → IsValue v → Values vs → IsText (v ++ after_comma vs)
list-IsText v vs h k = record {
  starts = starts-append v (after_comma vs) h.starts;
  right = right-list v vs h k;
  is_free = Free-append is_ender v (after_comma vs) (IsValue-IsText v h).is_free (Free-list vs k);
}

comma-Free : (v : Bytes) → IsValue v → Free (is_byte b',') v
comma-Free v h = Free-weaken is_special (is_byte b',') v (λ d e. ground arith) h.is_free

-- One part `x` that trims to `v`.
part-cons :
    (x v : Bytes) (rest : List Bytes)
    → trim_space x ≡ v
    → starts v ≡ true
    → non_empty_parts (x ∷ rest) ≡ v ∷ non_empty_parts rest
unfolding non_empty_parts
part-cons x [] rest e h = absurd (ground arith)
part-cons x (c ∷ v) rest e h = rw (e, non_empty_parts) refl

split-list :
    (x v : Bytes) (vs : List Bytes)
    → Free (is_byte b',') x
    → trim_space x ≡ v
    → starts v ≡ true
    → Values vs
    → non_empty_parts (split b',' (x ++ after_comma vs)) ≡ v ∷ vs
unfolding non_empty_parts
split-list x v [] f e h k = rw (append-nil x, split-Free b',' x f) (part-cons x v [] e h)
split-list x v (w ∷ vs) f e h k = rw (split_at_sep b',' x (b' ' ∷ (w ++ after_comma vs)) f) (
    part-cons x v (split b',' (b' ' ∷ (w ++ after_comma vs))) e h
    ∙ rw
        (split-list (b' ' ∷ w) w vs (refl, comma-Free w k.0)
          (trim_space_padded w (IsValue-IsText w k.0)) k.0.starts k.1)
        refl)

-- Splitting the list gives its values back.
pub split_list-list :
    (v : Bytes) (vs : List Bytes)
    → IsValue v
    → Values vs
    → split_list (v ++ after_comma vs) ≡ v ∷ vs
unfolding split_list
split_list-list v vs h k =
    split-list v v vs (comma-Free v h) (trim_space_text v (IsValue-IsText v h)) h.starts k
