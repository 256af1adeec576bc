-- ===== src/Parking/Tables.antt =====
-- services.py: what the writes of an entry and an exit do to the tables.
use hanium_smart_parkin.Base.{
  ℕ, ◌≡◌, refl, ◌≢◌, ◌⊎◌, inl, inr, Bool, true, false, Option, none, some, List, [], ◌∷◌, ◌==◌,
  if◌then◌else◌, arith, All, All-map, In, In-if, All-In, if_both, sym, is_some,
}
use hanium_smart_parkin.Parking.{SpotStatus, ParkingSpot, EntryExit}
use hanium_smart_parkin.Parking.Services.{is_active_of, active_of, set_exit, set_status}

module _ {F : Type 0} where
  -- The status of the spot with a key.
  unfoldable pub status_of : List (ParkingSpot F) → ℕ → Option SpotStatus
  status_of [] id = none
  status_of (s ∷ ss) id =
      let rest = status_of ss id in if s.spot_id == id then some s.status else rest

  pub status_of-set_same :
      (st x : SpotStatus) (id : ℕ) (ss : List (ParkingSpot F))
      → status_of ss id ≡ some x
      → status_of (set_status st id ss) id ≡ some st
  unfolding status_of set_status
  status_of-set_same st x id [] e = cc
  status_of-set_same st x id (s ∷ ss) e = ground (arith, status_of-set_same st x id ss)

  pub status_of-set_other :
      (st : SpotStatus) (id j : ℕ) (ss : List (ParkingSpot F))
      → j ≢ id
      → status_of (set_status st id ss) j ≡ status_of ss j
  unfolding status_of set_status
  status_of-set_other st id j [] n = refl
  status_of-set_other st id j (s ∷ ss) n = ground (arith, n, status_of-set_other st id j ss n)

-- Once this has ended, it is no longer active.
abbrev pub HasLeft : EntryExit → Type 0
HasLeft t = is_some t.exit_time ≡ true

-- Two transactions that are both active are of different vehicles and different spots.
abbrev pub AreApart : EntryExit → EntryExit → Type 0
AreApart t u = HasLeft t ⊎ (HasLeft u ⊎ ((t.vehicle ≢ u.vehicle) × (t.spot ≢ u.spot)))

abbrev pub AreAllApart : List EntryExit → Type 0
AreAllApart [] = Unit
AreAllApart (t ∷ ts) = All (AreApart t) ts × AreAllApart ts

AreApart-swap : (t u : EntryExit) → AreApart t u → AreApart u t
AreApart-swap t u (inl h) = inr (inl h)
AreApart-swap t u (inr (inl h)) = inl h
AreApart-swap t u (inr (inr (a, b))) = inr (inr ((λ e. a (sym e)), (λ e. b (sym e))))

pub apart_from :
    (t : EntryExit) (ts : List EntryExit)
    → AreAllApart ts
    → In t ts
    → All (λ u. (u ≡ t) ⊎ AreApart t u) ts
apart_from t [] h i = absurd i
apart_from t (u ∷ us) h (inl e) = (inl (sym e), All-map (λ x a. inr (rw e a)) us h.0)
apart_from t (u ∷ us) h (inr i) =
    (inr (AreApart-swap u t (All-In (AreApart u) t us h.0 i)), apart_from t us h.1 i)

-- `save` on one of the rows
abbrev pub exited : ℕ → ℕ → EntryExit → EntryExit
exited now id t = if t.transaction_id == id then record t { exit_time = some now } else t

pub exited-AreApart :
    (now id : ℕ) (t u : EntryExit) → AreApart t u → AreApart (exited now id t) (exited now id u)
exited-AreApart now id t u h =
    if_both (λ x. AreApart x (exited now id u)) (t.transaction_id == id) (inl refl)
      (if_both (AreApart t) (u.transaction_id == id) (inr (inl refl)) h)

pub All-set_exit :
    (P Q : EntryExit → Type 0) (now id : ℕ)
    → ((t : EntryExit) → P t → Q (exited now id t))
    → (ts : List EntryExit) → All P ts
    → All Q (set_exit now id ts)
unfolding set_exit
All-set_exit P Q now id f [] h = tt
All-set_exit P Q now id f (t ∷ ts) h = (f t h.0, All-set_exit P Q now id f ts h.1)

pub set_exit-AreAllApart :
    (now id : ℕ) (ts : List EntryExit) → AreAllApart ts → AreAllApart (set_exit now id ts)
unfolding set_exit
set_exit-AreAllApart now id [] h = tt
set_exit-AreAllApart now id (t ∷ ts) h = (
  All-set_exit (AreApart t) (AreApart (exited now id t)) now id (λ u. exited-AreApart now id t u) ts
      h.0,
  set_exit-AreAllApart now id ts h.1,
)

nil-if :
    (c : Bool) (t : EntryExit) (rest : List EntryExit)
    → (if c then t ∷ rest else rest) ≡ []
    → (c ≡ false) × (rest ≡ [])
nil-if true t rest e = cc
nil-if false t rest e = (refl, e)

-- An active transaction of the vehicle is one of the rows.
pub active_of-In :
    (plate : ℕ) (ts : List EntryExit) (t : EntryExit)
    → In t (active_of plate ts)
    → In t ts × (is_active_of plate t ≡ true)
unfolding active_of
active_of-In plate [] t i = absurd i
active_of-In plate (u ∷ us) t i = elim (In-if (is_active_of plate u) u t (active_of plate us) i) [
  | inl (e, c) ↦ (inl e, rw e c)
  | inr j ↦ let (p, q) = active_of-In plate us t j in (inr p, q)
]

pub none_active :
    (plate : ℕ) (ts : List EntryExit)
    → active_of plate ts ≡ []
    → All (λ t. is_active_of plate t ≡ false) ts
unfolding active_of
none_active plate [] e = tt
none_active plate (t ∷ ts) e =
    let (c, r) = nil-if (is_active_of plate t) t (active_of plate ts) e in
    (c, none_active plate ts r)
