-- ===== src/ArbMsg/Encoder/Texts.antt =====
-- Two strings of a pair, added to the strings of a message: encode_dl_info of
-- src/duallive/arbitrary_msg.c.
use duallive.Base.{
  ℕ, ◌+◌, ◌^◌, ◌≤◌, ◌<◌, ◌≡◌, ap, ◌∙◌, arith, inl, ◌++◌, append_assoc, length, length-take, some,
  Outcome, ok,
}
use duallive.Base.Memory.{Bytes, c_str}
use duallive.Kmem.{Allocator}
use duallive.Cvector.{StrVec, text, strvec_add}
use duallive.Cvector.Text
use duallive.Cvector.Text.{Added}
use duallive.Cvector.Strings.{strvec_add-Added}
use duallive.ArbMsg.Stored.{Refers, Refers-append, space}

pub space_str : (p s : Bytes) → c_str p ≡ some s → space p ≡ length s + 1
space_str p s h = rw (h, space)

-- Two strings added to a vector that holds another one besides the empty string.
pub record TwoAdded ⦃heap : Allocator⦄ (v : StrVec) (p q : Bytes) : Type 0 where
  pub first : StrVec
  pub off_p : ℕ
  pub vec : StrVec
  pub off_q : ℕ
  pub more : Bytes
  pub returns_p : strvec_add v p ≡ ok (off_p, first)
  pub returns_q : strvec_add first q ≡ ok (off_q, vec)
  pub valid : Text.IsValid vec
  pub extends : text vec ≡ text v ++ more
  pub later : 0 < vec.last_pos
  pub bounded : vec.pos ≤ v.pos + space p + space q
  pub refers_p : Refers (text vec) off_p p
  pub refers_q : Refers (text vec) off_q q

-- The string just added, as a reference.
pub Added-Refers :
    (v : StrVec) (p s : Bytes) {r : Outcome (ℕ × StrVec)}
    → c_str p ≡ some s
    → (a : Added v s r) → 0 < a.off
    → Refers (text a.vec) a.off p
Added-Refers v p s is a pos = record { str = s; is_str = is; holds = a.holds; positive = pos }

module _ ⦃heap : Allocator⦄ (v : StrVec) (p q s t : Bytes) (is_p : c_str p ≡ some s)
    (is_q : c_str q ≡ some t) where
  add_second :
      (a : Added v s (strvec_add v p))
      → 0 < a.off
      → Added a.vec t (strvec_add a.vec q)
      → TwoAdded v p q
  add_second a pos b =
      let later : 0 < a.vec.last_pos = omega (arith, a.is_last) in
      let pos_b : 0 < b.off = b.positive (inl later) in
      record {
        first = a.vec;
        off_p = a.off;
        vec = b.vec;
        off_q = b.off;
        more = a.more ++ b.more;
        returns_p = a.returns;
        returns_q = b.returns;
        valid = b.valid;
        extends = b.extends ∙ ap (λ m. m ++ b.more) a.extends ∙ append_assoc (text v) a.more b.more;
        later = omega (arith, b.is_last);
        bounded = omega (arith, a.bounded, b.bounded, space_str p s is_p, space_str q t is_q);
        refers_p =
            rw b.extends
              (Refers-append (text a.vec) b.more a.off p (Added-Refers v p s is_p a pos));
        refers_q = Added-Refers a.vec q t is_q b pos_b;
      }

  pub add_two :
      Text.IsValid v → 0 < v.last_pos → v.pos + space p + space q < 2 ^ 32 → TwoAdded v p q
  add_two valid later room =
      let size_p = space_str p s is_p in
      let size_q = space_str q t is_q in
      let a = strvec_add-Added v p s valid is_p (omega arith) in
      add_second a (a.positive (inl later))
        (strvec_add-Added a.vec q t a.valid is_q (omega (arith, a.bounded)))

pub Refers-lt :
    (v : StrVec) (off : ℕ) (p : Bytes) → Text.IsValid v → Refers (text v) off p → off < v.pos
Refers-lt v off p valid r = omega (arith, r.holds.0, length-take v.pos v.str)
