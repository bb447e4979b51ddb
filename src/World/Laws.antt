-- ===== src/World/Laws.antt =====
-- How a call ends, as a statement on its result and the world that it leaves: rules for the chains of
-- calls that `?` makes.
use anki_backup_tool.Base.{
  Bool, true, false, Option, none, some, ◌≡◌, refl, subst, string_eq, if◌then◌else◌,
}
use anki_backup_tool.World.{Error, Result, ok, err, World, Io, continue, pure, fail, ok_or}

module _ {S A : Type 0} where
  abbrev Holds : Result A → World S → (A → World S → Type 0) → (Error → World S → Type 0) → Type 0
  Holds (ok a) w Q E = Q a w
  Holds (err e) w Q E = E e w

  -- The call has ended well and `Q` holds, or with an error and `E` holds.
  pub record Ends (r : Result A × World S) (Q : A → World S → Type 0) (E : Error → World S → Type 0)
      : Type 0 where
    pub holds : Holds r.0 r.1 Q E

  pub Ends-ok :
      {r : Result A × World S} {Q : A → World S → Type 0} {E : Error → World S → Type 0}
      → Ends r Q E
      → (a : A) → r.0 ≡ ok a
      → Q a r.1
  Ends-ok {r} {Q} {E} h a e = subst (λ x. Holds x r.1 Q E) e h.holds

  pub Ends-err :
      {r : Result A × World S} {Q : A → World S → Type 0} {E : Error → World S → Type 0}
      → Ends r Q E
      → (e : Error) → r.0 ≡ err e
      → E e r.1
  Ends-err {r} {Q} {E} h e p = subst (λ x. Holds x r.1 Q E) p h.holds

  -- A call that cannot fail has ended well.
  pub Ends-total :
      {r : Result A × World S} {Q : A → World S → Type 0}
      → Ends r Q (λ _ _. ⊥)
      → (a : A) × (r.0 ≡ ok a) × Q a r.1
  Ends-total {r} {Q} h = given r.0 r.1 h.holds
    where
      given : (x : Result A) (u : World S) → Holds x u Q (λ _ _. ⊥) → (a : A) × (x ≡ ok a) × Q a u
      given (ok a) u q = (a, refl, q)
      given (err e) u q = absurd q

  mono :
      (x : Result A) (w : World S) (Q Q' : A → World S → Type 0) (E E' : Error → World S → Type 0)
      → ((a : A) (u : World S) → Q a u → Q' a u)
      → ((e : Error) (u : World S) → E e u → E' e u)
      → Holds x w Q E
      → Holds x w Q' E'
  mono (ok a) w Q Q' E E' f g h = f a w h
  mono (err e) w Q Q' E E' f g h = g e w h

  pub Ends-mono :
      {r : Result A × World S} {Q Q' : A → World S → Type 0} {E E' : Error → World S → Type 0}
      → Ends r Q E
      → ((a : A) (u : World S) → Q a u → Q' a u)
      → ((e : Error) (u : World S) → E e u → E' e u)
      → Ends r Q' E'
  Ends-mono {r} {Q} {Q'} {E} {E'} h f g = record { holds = mono r.0 r.1 Q Q' E E' f g h.holds }

module _ {S A B : Type 0} where
  chain :
      (x : Result A) (w : World S) (f : A → Io S B) (Q : A → World S → Type 0)
      (E : Error → World S → Type 0) (Q' : B → World S → Type 0) (E' : Error → World S → Type 0)
      → Holds x w Q E
      → ((a : A) (u : World S) → Q a u → Ends (f a u) Q' E')
      → ((e : Error) (u : World S) → E e u → E' e u)
      → Ends (continue x f w) Q' E'
  chain (ok a) w f Q E Q' E' h k g = k a w h
  chain (err e) w f Q E Q' E' h k g = record { holds = g e w h }

  -- A call and what follows it.
  pub Ends-bind :
      {r : Result A × World S} {f : A → Io S B} {Q : A → World S → Type 0}
      {E : Error → World S → Type 0} {Q' : B → World S → Type 0} {E' : Error → World S → Type 0}
      → Ends r Q E
      → ((a : A) (u : World S) → Q a u → Ends (f a u) Q' E')
      → ((e : Error) (u : World S) → E e u → E' e u)
      → Ends (continue r.0 f r.1) Q' E'
  Ends-bind {r} {f} {Q} {E} {Q'} {E'} h k g = chain r.0 r.1 f Q E Q' E' h.holds k g

  -- `?` on an option: the rest runs in the same world.
  pub Ends-ok_or :
      {Q : B → World S → Type 0} {E : Error → World S → Type 0} (o : Option A) (e : Error)
      (f : A → Io S B) (w : World S)
      → ((a : A) → o ≡ some a → Ends (f a w) Q E)
      → (o ≡ none → E e w)
      → Ends (continue (ok_or o e w).0 f (ok_or o e w).1) Q E
  Ends-ok_or none e f w k g = record { holds = g refl }
  Ends-ok_or (some a) e f w k g = k a refl

module _ {S A : Type 0} where
  pub Ends-if :
      (b : Bool) (m k : Io S A) (Q : A → World S → Type 0) (E : Error → World S → Type 0)
      (w : World S)
      → (b ≡ true → Ends (m w) Q E)
      → (b ≡ false → Ends (k w) Q E)
      → Ends ((if b then m else k) w) Q E
  Ends-if true m k Q E w f g = f refl
  Ends-if false m k Q E w f g = g refl

  after :
      (r : Result A) (u : World S) (Q : A → World S → Type 0) (E : Error → World S → Type 0)
      (T : World S → Type 0)
      → Ends (r, u) Q E
      → ((a : A) → Q a u → T u)
      → ((x : Error) → E x u → T u)
      → T u
  after (ok a) u Q E T h f g = f a h.holds
  after (err x) u Q E T h f g = g x h.holds

  -- What holds of the world that a call leaves, however it ends.
  pub Ends-after :
      {r : Result A × World S} {Q : A → World S → Type 0} {E : Error → World S → Type 0}
      (T : World S → Type 0)
      → Ends r Q E
      → ((a : A) → Q a r.1 → T r.1)
      → ((x : Error) → E x r.1 → T r.1)
      → T r.1
  Ends-after {r} {Q} {E} T h f g = after r.0 r.1 Q E T h f g

module _ {S B : Type 0} where
  -- A test that has to hold, and the rest.
  pub Ends-require :
      {Q : B → World S → Type 0} {E : Error → World S → Type 0} (b : Bool) (e : Error)
      (f : Unit → Io S B) (w : World S)
      → (b ≡ true → Ends (f tt w) Q E)
      → (b ≡ false → E e w)
      → Ends
          (continue ((if b then pure tt else fail e) w).0 f ((if b then pure tt else fail e) w).1)
          Q
          E
  Ends-require true e f w k g = k refl
  Ends-require false e f w k g = record { holds = g refl }

  -- A test that ends the call, and the rest.
  pub Ends-refuse :
      {Q : B → World S → Type 0} {E : Error → World S → Type 0} (b : Bool) (e : Error)
      (f : Unit → Io S B) (w : World S)
      → (b ≡ false → Ends (f tt w) Q E)
      → (b ≡ true → E e w)
      → Ends
          (continue ((if b then fail e else pure tt) w).0 f ((if b then fail e else pure tt) w).1)
          Q
          E
  Ends-refuse true e f w k g = record { holds = g refl }
  Ends-refuse false e f w k g = k refl

module _ {S A : Type 0} where
  settled :
      (r : Result A) (u : World S) (Q : A → World S → Type 0) (E : Error → World S → Type 0)
      → Ends (r, u) Q E
      → Ends (r, u) (λ a v. Q a v × (v ≡ u)) E
  settled (ok a) u Q E h = record { holds = (h.holds, refl) }
  settled (err x) u Q E h = record { holds = h.holds }

  -- A result and the world that the call leaves.
  pub Ends-there :
      {r : Result A × World S} {Q : A → World S → Type 0} {E : Error → World S → Type 0}
      → Ends r Q E
      → Ends r (λ a v. Q a v × (v ≡ r.1)) E
  Ends-there {r} {Q} {E} h = settled r.0 r.1 Q E h

module _ {S A : Type 0} where
  -- What holds of the world that a call leaves holds however it ends.
  pub Ends-always :
      (T : World S → Type 0) (r : Result A × World S) → T r.1 → Ends r (λ _ u. T u) (λ _ u. T u)
  Ends-always T (ok a, u) h = record { holds = h }
  Ends-always T (err x, u) h = record { holds = h }
