-- ===== src/Resolve/Order.antt =====
-- The order that a `BTreeSet` keeps its elements in: `Ord` of the standard library with the laws
-- that it asks of an implementation, and its derived form for an `Option` and for a pair of fields.
use Prim.Native.Nat.{ℕ, compare, Ordering}
use Prim.Native.Nat.Ordering.{lt, eq, gt}
use astli.Prelude.{◌≡◌, refl, Bool, true, false, Option, none, some, arith}

pub record IsLawful {ℓ} {V : Type ℓ} (cmp : V → V → Ordering) : Type ℓ where
  pub same : (a : V) → cmp a a ≡ eq
  pub unique : (a b : V) → cmp a b ≡ eq → a ≡ b
  pub flip_gt : (a b : V) → cmp a b ≡ gt → cmp b a ≡ lt
  pub flip_lt : (a b : V) → cmp a b ≡ lt → cmp b a ≡ gt
  pub chain : (a b c : V) → cmp a b ≡ lt → cmp b c ≡ lt → cmp a c ≡ lt

pub record Ord {ℓ} (V : Type ℓ) : Type ℓ where
  pub cmp : V → V → Ordering
  pub lawful : IsLawful cmp
  pub open lawful use *

abbrev pub is_eq : Ordering → Bool
is_eq eq = true
is_eq o = false

abbrev pub is_lt : Ordering → Bool
is_lt lt = true
is_lt o = false

pub nat-IsLawful : IsLawful compare
nat-IsLawful = ground arith

instance unfoldable pub nat_ord : Ord ℕ
nat_ord = record { cmp = compare; lawful = nat-IsLawful }

-- The derived order of an `Option`: `None` below every `Some`.
module _ {ℓ} {V : Type ℓ} ⦃o : Ord V⦄ where
  abbrev pub option_cmp : Option V → Option V → Ordering
  option_cmp none none = eq
  option_cmp none (some b) = lt
  option_cmp (some a) none = gt
  option_cmp (some a) (some b) = o.cmp a b

  pub option-IsLawful : IsLawful option_cmp
  option-IsLawful = record {
    same = λ a. option_same a;
    unique = λ a b. option_unique a b;
    flip_gt = λ a b. option_flip_gt a b;
    flip_lt = λ a b. option_flip_lt a b;
    chain = λ a b c. option_chain a b c;
  }
    where
      option_same : (a : Option V) → option_cmp a a ≡ eq
      option_same none = refl
      option_same (some a) = o.same a

      option_unique : (a b : Option V) → option_cmp a b ≡ eq → a ≡ b
      option_unique none none h = refl
      option_unique none (some b) h = cc
      option_unique (some a) none h = cc
      option_unique (some a) (some b) h = cc (o.unique a b h)

      option_flip_gt : (a b : Option V) → option_cmp a b ≡ gt → option_cmp b a ≡ lt
      option_flip_gt none none h = cc
      option_flip_gt none (some b) h = cc
      option_flip_gt (some a) none h = refl
      option_flip_gt (some a) (some b) h = o.flip_gt a b h

      option_flip_lt : (a b : Option V) → option_cmp a b ≡ lt → option_cmp b a ≡ gt
      option_flip_lt none none h = cc
      option_flip_lt none (some b) h = refl
      option_flip_lt (some a) none h = cc
      option_flip_lt (some a) (some b) h = o.flip_lt a b h

      option_chain :
          (a b c : Option V) → option_cmp a b ≡ lt → option_cmp b c ≡ lt → option_cmp a c ≡ lt
      option_chain none none c h k = cc
      option_chain none (some b) none h k = cc
      option_chain none (some b) (some c) h k = refl
      option_chain (some a) none c h k = cc
      option_chain (some a) (some b) none h k = cc
      option_chain (some a) (some b) (some c) h k = o.chain a b c h k
