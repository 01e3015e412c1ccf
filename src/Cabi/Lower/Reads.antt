-- ===== src/Cabi/Lower/Reads.antt =====
-- Lanes that a value iterator reads, one after the other.
use polyengine.Base.{◌≡◌, refl, ap, List, [], ◌∷◌, ◌++◌, ok}
use polyengine.Cabi.Types.{CoreType}
use polyengine.Cabi.Float.{Floats}
use polyengine.Cabi.Lanes.{Lane, Lanes, next}
use polyengine.Cabi.Lanes.RoundTrip.{AreLanes, next-eq-ok, CoercesBack}
use polyengine.Cabi.Lift.{of_core, to_core, Next, core_next, coerce_next, skip_rest}
use polyengine.Cabi.Lower.{to_cores, of_cores}

module _ (fl : Floats) where
  -- From the state `i` the iterator reads these lanes, and is then in the state `i'`.
  abbrev pub Reads : {I : Type 0} → Next fl I → (ts : List CoreType) → Lanes fl ts → I → I → Type 0
  Reads next [] vs i i' = i ≡ i'
  Reads {I} next (t ∷ ts) vs i i' =
      (j : I) × (next t i ≡ ok (to_core fl t vs.0, j)) × Reads next ts vs.1 j i'

  pub of_core-to_core : (t : CoreType) (v : Lane fl t) → of_core fl t (to_core fl t v) ≡ ok v
  unfolding of_core to_core
  of_core-to_core CoreType.i32 v = refl
  of_core-to_core CoreType.i64 v = refl
  of_core-to_core CoreType.f32 v = refl
  of_core-to_core CoreType.f64 v = refl

  pub of_cores-to_cores :
      (ts : List CoreType) (vs : Lanes fl ts) → of_cores fl ts (to_cores fl ts vs) ≡ ok vs
  unfolding of_cores to_cores
  of_cores-to_cores [] vs = refl
  of_cores-to_cores (t ∷ ts) vs = rw (of_core-to_core t vs.0, of_cores-to_cores ts vs.1) refl

  abbrev pub append_lanes :
      (ts us : List CoreType) → Lanes fl ts → Lanes fl us → Lanes fl (ts ++ us)
  append_lanes [] us vs ws = ws
  append_lanes (t ∷ ts) us vs ws = (vs.0, append_lanes ts us vs.1 ws)

  pub append_lanes-AreLanes :
      (ts us : List CoreType) (vs : Lanes fl ts) (ws : Lanes fl us)
      → AreLanes fl ts vs
      → AreLanes fl us ws
      → AreLanes fl (ts ++ us) (append_lanes ts us vs ws)
  append_lanes-AreLanes [] us vs ws h k = k
  append_lanes-AreLanes (t ∷ ts) us vs ws h k = (h.0, append_lanes-AreLanes ts us vs.1 ws h.1 k)

  pub to_cores-append_lanes :
      (ts us : List CoreType) (vs : Lanes fl ts) (ws : Lanes fl us)
      → to_cores fl (ts ++ us) (append_lanes ts us vs ws) ≡ to_cores fl ts vs ++ to_cores fl us ws
  unfolding to_cores
  to_cores-append_lanes [] us vs ws = refl
  to_cores-append_lanes (t ∷ ts) us vs ws =
      ap (λ cs. to_core fl t vs.0 ∷ cs) (to_cores-append_lanes ts us vs.1 ws)

  module _ {I : Type 0} (next : Next fl I) where
    pub Reads-append_lanes :
        (ts us : List CoreType) (vs : Lanes fl ts) (ws : Lanes fl us) (i i' : I)
        → Reads next (ts ++ us) (append_lanes ts us vs ws) i i'
        → (j : I) × Reads next ts vs i j × Reads next us ws j i'
    Reads-append_lanes [] us vs ws i i' r = (i, refl, r)
    Reads-append_lanes (t ∷ ts) us vs ws i i' (j, e, r) =
        let (k, first, second) = Reads-append_lanes ts us vs.1 ws j i' r in
        (k, (j, e, first), second)

    skip_rest-Reads :
        (ts : List CoreType) (vs : Lanes fl ts) (i i' : I)
        → Reads next ts vs i i'
        → skip_rest fl next ts i ≡ ok i'
    unfolding skip_rest
    skip_rest-Reads [] vs i i' r = ap ok r
    skip_rest-Reads (t ∷ ts) vs i i' (j, e, r) = rw e (skip_rest-Reads ts vs.1 j i' r)

    -- The iterator that converts the lanes of a variant reads the lanes of the payload, and leaves
    -- the other lanes of the variant.
    pub coerce_next-Reads :
        (haves wants : List CoreType) (ws : Lanes fl wants) (vs : Lanes fl haves) (i i' : I)
        → CoercesBack fl haves wants ws vs
        → Reads next wants ws i i'
        → (rest : List CoreType) × (j : I) × Reads
            (coerce_next fl next)
            haves
            vs
            (wants, i)
            (rest, j)
          × (skip_rest fl next rest j ≡ ok i')
    unfolding coerce_next
    coerce_next-Reads [] wants ws vs i i' back r = (wants, i, refl, skip_rest-Reads wants ws i i' r)
    coerce_next-Reads (have ∷ haves) [] ws vs i i' back r = elim back [ ]
    coerce_next-Reads (have ∷ haves) (want ∷ wants) ws vs i i' (b, bs) (j, e, r) =
        let (rest, k, reads, skipped) = coerce_next-Reads haves wants ws.1 vs.1 j i' bs r in
        (rest, k, ((wants, j), rw (e, of_core-to_core want ws.0, b) refl, reads), skipped)

  -- The iterator over core values reads the lanes that they are.
  pub core_next-Reads :
      (ts : List CoreType) (vs : Lanes fl ts)
      → AreLanes fl ts vs
      → Reads (core_next fl) ts vs (to_cores fl ts vs) []
  unfolding core_next to_cores
  core_next-Reads [] vs h = refl
  core_next-Reads (t ∷ ts) vs h = (
    to_cores fl ts vs.1,
    rw (of_core-to_core t vs.0, next-eq-ok fl t vs.0 h.0) refl,
    core_next-Reads ts vs.1 h.1,
  )
