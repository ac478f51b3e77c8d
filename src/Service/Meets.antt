-- ===== src/Service/Meets.antt =====
-- A command meets an effect: the same value, the same reports and the same history, and the memory
-- as it was, or, where the effect is not clean, every block that was there before and one more.
use libzbxpgsql.Base.{
  subst, ℕ, ◌≤◌, ◌<◌, ◌≡◌, refl, ap, sym, ◌∙◌, Bool, true, false, ◌&&◌, Option, none, some, List,
  [], ◌∷◌, ◌++◌, append_assoc, Text, arith,
}
use native.Mathlib.Nat.{le_refl}
use libzbxpgsql.Runtime.{World, Object, params, Report, Cmd, pure, lift, ◌>>=◌, report}
use libzbxpgsql.Params.{PgParams}
use libzbxpgsql.Params.Laws.{array, IsFresh, Frees, Frees-IsFresh}
use libzbxpgsql.Params.Owned.{HasArray, is_empty}
use libzbxpgsql.Service.Effects.{Effect, Act, returns, lifted, says, joined, and_then}

-- Every block of `w` is still there.
pub record Keeps (w w' : World) : Type 0 where
  pub old : (p : ℕ) → p < w.next → w'.heap p ≡ w.heap p
  pub fresh : IsFresh w'
  pub grows : w.next ≤ w'.next

-- Every block of `w` is still there, and a new one is left behind.
pub record Leaves (w w' : World) : Type 0 where
  pub keeps : Keeps w w'
  pub left : (p : ℕ) × (o : Object) × (w.next ≤ p) × (p < w'.next) × (w'.heap p ≡ some o)

abbrev pub Memory : Bool → World → World → Type 0
Memory true w w' = Frees none w w'
Memory false w w' = Leaves w w'

pub Memory-Keeps : (clean : Bool) (w w' : World) → IsFresh w → Memory clean w w' → Keeps w w'
Memory-Keeps true w w' f m = record {
  old = λ p l. m.heap p;
  fresh = Frees-IsFresh none w w' m f;
  grows = m.grows;
}
Memory-Keeps false w w' f m = m.keeps

pub Keeps-trans : (w₁ w₂ w₃ : World) → Keeps w₁ w₂ → Keeps w₂ w₃ → Keeps w₁ w₃
Keeps-trans w₁ w₂ w₃ a b = record {
  old = λ p l. b.old p (omega (arith, l, a.grows)) ∙ a.old p l;
  fresh = b.fresh;
  grows = omega (arith, a.grows, b.grows);
}

pub Memory_trans :
    (c d : Bool) (w₁ w₂ w₃ : World)
    → IsFresh w₁
    → Memory c w₁ w₂
    → Memory d w₂ w₃
    → Memory (c && d) w₁ w₃
Memory_trans true true w₁ w₂ w₃ f a b = record {
  heap = λ p. b.heap p ∙ a.heap p;
  grows = omega (arith, a.grows, b.grows);
}
Memory_trans true false w₁ w₂ w₃ f a b =
    let (q, o, new, bound, there) = b.left in
    record {
      keeps = Keeps-trans w₁ w₂ w₃ (Memory-Keeps true w₁ w₂ f a) b.keeps;
      left = (q, o, omega (arith, new, a.grows), bound, there);
    }
Memory_trans false d w₁ w₂ w₃ f a b =
    let (q, o, new, bound, there) = a.left in
    let kept = Memory-Keeps d w₂ w₃ a.keeps.fresh b in
    record {
      keeps = Keeps-trans w₁ w₂ w₃ a.keeps kept;
      left = (q, o, new, omega (arith, bound, kept.grows), kept.old q bound ∙ there);
    }

-- An array that is never given back.
pub HasArray-Memory :
    (w₀ w : World) (ps : PgParams) (ss : List Text)
    → HasArray w₀ w ps ss
    → Memory (is_empty ss) w₀ w
HasArray-Memory w₀ w none ss o = rw o.placed (record { heap = o.heap; grows = o.grows })
HasArray-Memory w₀ w (some q) ss o = rw o.placed.2 (record {
  keeps = record {
    old = λ p l. ground (arith, o.heap p, o.placed);
    fresh = λ p l. ground (arith, o.heap p, o.was_fresh p, o.grows, o.placed);
    grows = o.grows;
  };
  left = (q, params (array ss), o.placed.0, o.placed.1, ground (arith, o.heap q));
})

-- The step from `w` to `w'` performs the effect; the memory is compared with that of `w₀`.
pub record Performs {B : Type 0} (e : Effect B) (w₀ w w' : World) : Type 0 where
  pub memory : Memory e.clean w₀ w'
  pub reports : w'.reports ≡ e.said ++ w.reports
  pub history : w'.history ≡ e.asked ++ w.history

abbrev pub Meets : {B : Type 0} → World → World → Option (B × World) → Option (Effect B) → Type 0
Meets w₀ w r none = r ≡ none
Meets {B} w₀ w r (some e) = (w' : World) × (r ≡ some (e.value, w')) × Performs e w₀ w w'

-- A command implements an act, from every state.
pub record Implements {B : Type 0} (m : Cmd B) (a : Act B) : Type 0 where
  pub at : (w : World) → IsFresh w → Meets w w (m w) (a w.history)

module _ {A B : Type 0} where
  abbrev continue : (A → Cmd B) → Option (A × World) → Option (B × World)
  continue k none = none
  continue k (some (x, w)) = k x w

  pub Meets-joined :
      (e : Effect A) (w₀ w w₁ : World) (r : Option (B × World)) (next : Option (Effect B))
      → IsFresh w₀
      → Performs e w₀ w w₁
      → Meets w₁ w₁ r next
      → Meets w₀ w r (joined e next)
  Meets-joined e w₀ w w₁ r none f p m = m
  Meets-joined e w₀ w w₁ r (some e') f p (w₂, runs, q) = (
    w₂,
    runs,
    record {
      memory = Memory_trans e.clean e'.clean w₀ w₁ w₂ f p.memory q.memory;
      reports =
          q.reports ∙ ap (◌++◌ e'.said) p.reports ∙ sym (append_assoc e'.said e.said w.reports);
      history =
          q.history ∙ ap (◌++◌ e'.asked) p.history ∙ sym (append_assoc e'.asked e.asked w.history);
    },
  )

  -- One command after the other.
  pub Meets-bind_of :
      (w₀ w : World) (m : Cmd A) (a : Option (Effect A)) (k : A → Cmd B) (next : A → Act B)
      → IsFresh w₀
      → Meets w₀ w (m w) a
      → ((e : Effect A) → a ≡ some e → Implements (k e.value) (next e.value))
      → Meets w₀ w ((m >>= k) w) (and_then a next w.history)
  Meets-bind_of w₀ w m none k next f h impl = ap (continue k) h
  Meets-bind_of w₀ w m (some e) k next f (w₁, runs, p) impl =
      let fresh = (Memory-Keeps e.clean w₀ w₁ f p.memory).fresh in
      let step : Meets w₁ w₁ (k e.value w₁) (next e.value (e.asked ++ w.history)) =
        subst (λ h. Meets w₁ w₁ (k e.value w₁) (next e.value h)) p.history
          ((impl e refl).at w₁ fresh) in
      subst (λ r. Meets w₀ w r (and_then (some e) next w.history)) (sym (ap (continue k) runs))
        (Meets-joined e w₀ w w₁ (k e.value w₁) (next e.value (e.asked ++ w.history)) f p step)

  pub Meets-bind :
      (w₀ w : World) (m : Cmd A) (a : Option (Effect A)) (k : A → Cmd B) (next : A → Act B)
      → IsFresh w₀
      → Meets w₀ w (m w) a
      → ((x : A) → Implements (k x) (next x))
      → Meets w₀ w ((m >>= k) w) (and_then a next w.history)
  Meets-bind w₀ w m a k next f h impl = Meets-bind_of w₀ w m a k next f h (λ e _. impl e.value)

  -- What is read from the value.
  abbrev pub mapped : (A → Option B) → Option (Effect A) → Option (Effect B)
  mapped g none = none
  mapped g (some e) = elim (g e.value) [
    | none ↦ none
    | some b ↦ some (record { value = b; said = e.said; asked = e.asked; clean = e.clean })
  ]

  pub Meets-mapped :
      (g : A → Option B) (w₀ w : World) (m : Cmd A) (a : Option (Effect A))
      → Meets w₀ w (m w) a
      → Meets w₀ w ((m >>= λ x. lift (g x)) w) (mapped g a)
  Meets-mapped g w₀ w m none h = ap (continue (λ x. lift (g x))) h
  Meets-mapped g w₀ w m (some e) (w₁, runs, p) = go (g e.value) refl
    where
      go :
          (o : Option B)
          → g e.value ≡ o
          → Meets w₀ w ((m >>= λ x. lift (g x)) w) (elim o [
            | none ↦ none
            | some b ↦ some (record { value = b; said = e.said; asked = e.asked; clean = e.clean })
          ])
      go none x = ground (arith, runs, x)
      go (some b) x = (
        w₁,
        ground (arith, runs, x),
        record { memory = p.memory; reports = p.reports; history = p.history },
      )

pub Frees_refl : (w : World) → Frees none w w
Frees_refl w = record { heap = λ p. refl; grows = le_refl _ }

pub Implements-returns : {B : Type 0} (b : B) → Implements (pure b) (returns b)
Implements-returns b = record {
  at = λ w f. (w, refl, record { memory = Frees_refl w; reports = refl; history = refl });
}

pub Implements-lift : {B : Type 0} (o : Option B) → Implements (lift o) (lifted o)
Implements-lift none = record { at = λ w f. refl }
Implements-lift (some b) = Implements-returns b

-- One report.
pub Implements-report :
    {B : Type 0} (r : Report) (b : B) → Implements (report r >>= λ _. pure b) (says (r ∷ []) true b)
unfolding report
Implements-report r b = record {
  at = λ w f. (
    record w { reports = r ∷ w.reports },
    refl,
    record {
      memory = record { heap = λ p. refl; grows = le_refl _ };
      reports = refl;
      history = refl;
    },
  );
}

module _ {A B : Type 0} where
  -- `Meets-bind` where the first command stands alone.
  pub Implements-bind :
      (m : Cmd A) (a : Act A) (k : A → Cmd B) (next : A → Act B)
      → Implements m a
      → ((x : A) → Implements (k x) (next x))
      → Implements (m >>= k) (λ h. and_then (a h) next h)
  Implements-bind m a k next first rest = record {
    at = λ w f. Meets-bind w w m (a w.history) k next f (first.at w f) rest;
  }
