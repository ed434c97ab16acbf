-- ===== src/Dialers/Sorted/Ordering.antt =====
-- Less as an order.
use gocs.Prelude.{◌<◌, ◌≡◌, true, false, Bytes, arith}
use gocs.Dialers.Sorted.{Float, Sorted, less_keys}

-- What the code relies on in the order of float32.
pub record IsOrdered (float : Float) : Type 0 where
  pub irreflexive : (x : float.F) → float.less x x ≡ false
  pub asymmetric : (x y : float.F) → float.less x y ≡ true → float.less y x ≡ false

-- Of two keys at most one is before the other, so that no key is before itself.
pub less_keys-asymmetric :
    (float : Float) (s : Sorted float) (i j : Bytes)
    → IsOrdered float
    → less_keys float s i j ≡ true
    → less_keys float s j i ≡ false
unfolding less_keys
less_keys-asymmetric float s i j o h = ground (
  arith,
  o.asymmetric (s.err_rate i) (s.err_rate j),
  o.asymmetric s.rate_tolerance (float.minus (s.err_rate j) (s.err_rate i)),
  o.asymmetric s.rate_tolerance (float.minus (s.err_rate i) (s.err_rate j)),
)

-- Less is not transitive, over an asymmetric order of rates: three keys whose error rates rise by
-- less than the tolerance at each step, by more than it in all, and whose average times fall, are
-- each before another in a circle.
pub less_keys-circle :
    (float : Float) (s : Sorted float) (a b c : Bytes)
    → IsOrdered float
    → float.less (s.err_rate a) (s.err_rate b) ≡ true
    → float.less (s.err_rate b) (s.err_rate c) ≡ true
    → float.less (s.err_rate a) (s.err_rate c) ≡ true
    → float.less (float.minus (s.err_rate b) (s.err_rate a)) s.rate_tolerance ≡ true
    → float.less (float.minus (s.err_rate c) (s.err_rate b)) s.rate_tolerance ≡ true
    → float.less s.rate_tolerance (float.minus (s.err_rate c) (s.err_rate a)) ≡ true
    → s.avg_time b < s.avg_time a
    → s.avg_time c < s.avg_time b
    → (less_keys float s a c ≡ true)
      × (less_keys float s c b ≡ true)
      × (less_keys float s b a ≡ true)
unfolding less_keys
less_keys-circle float s a b c o ab bc ac tab tbc tac x y = (
  ground arith,
  ground (arith, o.asymmetric (s.err_rate b) (s.err_rate c)),
  ground (arith, o.asymmetric (s.err_rate a) (s.err_rate b)),
)
