-- ===== src/Resolve/Candidate.antt =====
-- crates/astli-resolve/src/version.rs, `Candidate`. `semver::Version` and `gix::ObjectId` are
-- parameters with their orders.
use Prim.Native.Nat.{Ordering}
use Prim.Native.Nat.Ordering.{lt, eq, gt}
use astli.Prelude.{◌≡◌, refl, Option, arith}
use astli.Resolve.Order.{Ord, IsLawful, option_cmp, option-IsLawful}

pub data Candidate {ℓ κ} (V : Type ℓ) (I : Type κ) : Type (ℓ ⊔ κ) where
  local : Candidate V I
  commit : Option V → I → Candidate V I

abbrev pub then : Ordering → Ordering → Ordering
then eq next = next
then first next = first

version-IsLawful {ℓ} : {V : Type ℓ} (v : Ord V) → IsLawful {V = Option V} (option_cmp ⦃o = v⦄)
version-IsLawful v = option-IsLawful ⦃o = v⦄

module _ {ℓ κ} {V : Type ℓ} {I : Type κ} ⦃v : Ord V⦄ ⦃i : Ord I⦄ where
  -- `derive(PartialOrd, Ord)`: variants in order, then fields in order.
  abbrev pub candidate_cmp : Candidate V I → Candidate V I → Ordering
  candidate_cmp local local = eq
  candidate_cmp local (commit w j) = lt
  candidate_cmp (commit u h) local = gt
  candidate_cmp (commit u h) (commit w j) = then (option_cmp u w) (i.cmp h j)

  -- The two fields, one after the other.
  abbrev fields_cmp : Option V → Option V → I → I → Ordering
  fields_cmp u w h j = then (option_cmp u w) (i.cmp h j)

  chain_pair :
      (u w x : Option V) (h j m : I)
      → fields_cmp u w h j ≡ lt
      → fields_cmp w x j m ≡ lt
      → fields_cmp u x h m ≡ lt
  chain_pair u w x h j m p q = ground (
    arith,
    (version-IsLawful v).unique u w,
    (version-IsLawful v).unique w x,
    (version-IsLawful v).chain u w x,
    (version-IsLawful v).same x,
    i.chain h j m,
  )

  flip_gt_pair : (u w : Option V) (h j : I) → fields_cmp u w h j ≡ gt → fields_cmp w u j h ≡ lt
  flip_gt_pair u w h j p = ground (
    arith,
    (version-IsLawful v).unique u w,
    (version-IsLawful v).same w,
    (version-IsLawful v).flip_gt u w,
    i.flip_gt h j,
  )

  flip_lt_pair : (u w : Option V) (h j : I) → fields_cmp u w h j ≡ lt → fields_cmp w u j h ≡ gt
  flip_lt_pair u w h j p = ground (
    arith,
    (version-IsLawful v).unique u w,
    (version-IsLawful v).same w,
    (version-IsLawful v).flip_lt u w,
    i.flip_lt h j,
  )

  candidate_chain :
      (a b c : Candidate V I)
      → candidate_cmp a b ≡ lt
      → candidate_cmp b c ≡ lt
      → candidate_cmp a c ≡ lt
  candidate_chain local local c h k = ground arith
  candidate_chain local (commit w j) local h k = ground arith
  candidate_chain local (commit w j) (commit x m) h k = ground arith
  candidate_chain (commit u h') local local h k = ground arith
  candidate_chain (commit u h') local (commit x m) h k = ground arith
  candidate_chain (commit u h') (commit w j) local h k = ground arith
  candidate_chain (commit u h') (commit w j) (commit x m) h k = chain_pair u w x h' j m h k

  candidate_same : (a : Candidate V I) → candidate_cmp a a ≡ eq
  candidate_same local = refl
  candidate_same (commit u h) = rw ((version-IsLawful v).same u) (i.same h)

  candidate_unique : (a b : Candidate V I) → candidate_cmp a b ≡ eq → a ≡ b
  candidate_unique local local e = refl
  candidate_unique local (commit w j) e = cc
  candidate_unique (commit u h) local e = cc
  candidate_unique (commit u h) (commit w j) e =
      ground (arith, (version-IsLawful v).unique u w, i.unique h j)

  candidate_flip_gt : (a b : Candidate V I) → candidate_cmp a b ≡ gt → candidate_cmp b a ≡ lt
  candidate_flip_gt local local e = ground arith
  candidate_flip_gt local (commit w j) e = ground arith
  candidate_flip_gt (commit u h) local e = ground arith
  candidate_flip_gt (commit u h) (commit w j) e = flip_gt_pair u w h j e

  candidate_flip_lt : (a b : Candidate V I) → candidate_cmp a b ≡ lt → candidate_cmp b a ≡ gt
  candidate_flip_lt local local e = ground arith
  candidate_flip_lt local (commit w j) e = ground arith
  candidate_flip_lt (commit u h) local e = ground arith
  candidate_flip_lt (commit u h) (commit w j) e = flip_lt_pair u w h j e

  -- The derived order is a total order.
  pub candidate-IsLawful : IsLawful {V = Candidate V I} candidate_cmp
  candidate-IsLawful = record {
    same = λ a. candidate_same a;
    unique = λ a b. candidate_unique a b;
    flip_gt = λ a b. candidate_flip_gt a b;
    flip_lt = λ a b. candidate_flip_lt a b;
    chain = λ a b c. candidate_chain a b c;
  }

  instance unfoldable pub candidate_ord : Ord (Candidate V I)
  candidate_ord = record { cmp = candidate_cmp; lawful = candidate-IsLawful }
