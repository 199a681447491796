-- ===== src/SplayTree/Values.antt =====
-- What the splay tree asks of its values: `<=>`, and `refresh_state`, which is given the values of
-- the two children, where there are any.
use Prim.Native.Nat.{Ordering}
use all.Prelude.{◌≡◌, Option}
use all.Avl.Compare.{Ordered}

pub record Element {ℓ} (T : Type ℓ) : Type ℓ where
  pub cmp : T → T → Ordering
  pub refresh : T → Option T → Option T → T

-- Values are ordered by a key, which `refresh_state` leaves alone, and what `refresh_state` sets
-- does not depend on the state before it.
pub record Lawful {ℓ} {T : Type ℓ} (e : Element T) (K : Type ℓ) ⦃o : Ordered K⦄ : Type ℓ where
  pub key : T → K
  pub cmp_key : (v w : T) → e.cmp v w ≡ o.cmp (key v) (key w)
  pub key_refresh : (v : T) (l r : Option T) → key (e.refresh v l r) ≡ key v
  pub refresh_refresh :
      (v : T) (a b c d : Option T) → e.refresh (e.refresh v a b) c d ≡ e.refresh v c d
