-- ===== src/Cabi/Lower/Parts.antt =====
-- The parts of a value, lowered one after the other and lifted.
use polyengine.Base.{ℕ, ◌≡◌, refl, sym, ap, ◌∙◌, some, List, [], ◌++◌, String, Result, ok, ◌>>=◌}
use polyengine.Cabi.Types.{CoreType}
use polyengine.Cabi.Despecialized.{DespecializedType, Payload, type, Cases, case_then}
use polyengine.Cabi.Flatten.{repeat, flatten_type}
use polyengine.Cabi.Flatten.Join.{LanesFit}
use polyengine.Cabi.Float.{Floats}
use polyengine.Cabi.Lanes.{Lanes, pad}
use polyengine.Cabi.Lanes.RoundTrip.{AreLanes, pad-AreLanes, lower_lanes-CoercesBack}
use polyengine.Cabi.Value.{Value, no_elements, element, element_count, Host}
use polyengine.Cabi.Access.{HostValue, HostCx}
use polyengine.Cabi.Bulk.{HostElements}
use polyengine.Cabi.Lift.{
  Next, coerce_next, skip_rest, lift_flat_elements, lift_flat, lift_flat_payload,
}
use polyengine.Cabi.Lower.{
  to_cores, Lowered, lower_flat_elements, lower_into, lower_flat, lower_flat_payload,
}
use polyengine.Cabi.Lower.Reads.{
  Reads, append_lanes, append_lanes-AreLanes, to_cores-append_lanes, Reads-append_lanes,
  of_cores-to_cores, coerce_next-Reads,
}
use polyengine.Cabi.Lower.Scalars.{Carried}
use polyengine.Cabi.Store.Typing.{Typed, AllElements}

module _ {fl : Floats} (host : Host fl) where
  abbrev pub Lift {ℓ} : Type ℓ → Type (ℓ ⊔ 1)
  Lift A = (I : Type 0) → Next fl I → HostCx host → I → Result ((A × I) × HostCx host)

  -- The lanes of two parts, and a lift that lifts both.
  pub Carried-append {ℓ κ μ} :
      {A : Type ℓ} {B : Type κ} {C : Type μ} (cx : HostCx host) (ts us : List CoreType)
      {first : Lowered host} (second : HostCx host → Lowered host) {lift₁ : Lift A} {lift₂ : Lift B}
      (lift : Lift C) {a : A} {b : B} (c : C)
      → Carried host first lift₁ a cx ts
      → Carried host (second cx) lift₂ b cx us
      → ((I : Type 0) (next : Next fl I) (kept : HostCx host) (i j k : I)
          → lift₁ I next kept i ≡ ok ((a, j), kept)
          → lift₂ I next kept j ≡ ok ((b, k), kept)
          → lift I next kept i ≡ ok ((c, k), kept))
      → Carried host
          (do (flat, cx') ← first; (rest, cx'') ← second cx'; ok (flat ++ rest, cx''))
          lift
          c
          cx
          (ts ++ us)
  Carried-append cx ts us second lift c (vs, are, lo, li) (ws, are', lo', li') both = (
    append_lanes fl ts us vs ws,
    append_lanes-AreLanes fl ts us vs ws are are',
    rw (lo, lo') (ap (λ flat. ok (flat, cx)) (sym (to_cores-append_lanes fl ts us vs ws))),
    λ I next kept i i' addr r.
        let (j, r₁, r₂) = Reads-append_lanes fl next ts us vs ws i i' r in
        both I next kept i j i' (li I next kept i j addr r₁) (li' I next kept j i' addr r₂),
  )

  -- The same lanes, lifted to something else.
  pub Carried-map {ℓ κ} :
      {A : Type ℓ} {B : Type κ} (cx : HostCx host) (ts : List CoreType)
      {lowered lowered' : Lowered host} {lift : Lift A} (lift' : Lift B) {a : A} (b : B)
      → lowered' ≡ lowered
      → Carried host lowered lift a cx ts
      → ((I : Type 0) (next : Next fl I) (kept : HostCx host) (i j : I)
          → lift I next kept i ≡ ok ((a, j), kept)
          → lift' I next kept i ≡ ok ((b, j), kept))
      → Carried host lowered' lift' b cx ts
  Carried-map cx ts lift' b same (vs, are, lo, li) go = (
    vs,
    are,
    same ∙ lo,
    λ I next kept i i' addr r. go I next kept i i' (li I next kept i i' addr r),
  )

  pub Carried-nothing {ℓ} :
      {A : Type ℓ} (cx : HostCx host) (lift : Lift A) (a : A)
      → ((I : Type 0) (next : Next fl I) (kept : HostCx host) (i : I)
          → lift I next kept i ≡ ok ((a, i), kept))
      → Carried host (ok ([], cx)) lift a cx []
  unfolding to_cores
  Carried-nothing cx lift a back =
      (tt, tt, refl, λ I next kept i i' addr r. back I next kept i ∙ ap (λ j. ok ((a, j), kept)) r)

  abbrev pub FlatCarried : DespecializedType → HostCx host → HostValue host → List CoreType → Type 1
  FlatCarried t cx v flat =
      Carried host (lower_flat host t cx v) (λ I next kept i. lift_flat host next t kept i) v cx
        flat

  pub elements-Carried :
      (t : DespecializedType) (cx : HostCx host) (one : List CoreType)
      → ((w : HostValue host) → Typed host t w → FlatCarried t cx w one)
      → (vs : HostElements host) → AllElements host (λ w. Typed host t w) vs
      → Carried host
          (lower_flat_elements host (λ cx v. lower_flat host t cx v) cx vs)
          (λ I next kept i.
            lift_flat_elements host (λ cx i. lift_flat host next t cx i) (element_count vs) kept i)
          vs
          cx
          (repeat (element_count vs) one)
  unfolding AllElements element_count lower_flat_elements lift_flat_elements repeat
  elements-Carried t cx one each no_elements h =
      Carried-nothing cx _ no_elements (λ I next kept i. refl)
  elements-Carried t cx one each (element v vs) (h, hs) =
      Carried-append cx one (repeat (element_count vs) one)
        (λ cx'. lower_flat_elements host (λ cx v. lower_flat host t cx v) cx' vs) _ (element v vs)
        (each v h) (elements-Carried t cx one each vs hs)
        (λ I next kept i j k r r'. rw (r, r') refl)

  -- The payload of a case, in the lanes of its variant.
  abbrev pub PayloadCarried : Cases → ℕ → HostCx host → HostValue host → List CoreType → Type 1
  PayloadCarried cs n cx v wants =
      (ws : Lanes fl wants) × AreLanes fl wants ws
      × (lower_flat_payload host cs n cx v wants ≡ ok (to_cores fl wants ws, cx))
      × ((I : Type 0) (next : Next fl I) (kept : HostCx host) (i i' : I)
          → kept.memory.addr_type ≡ cx.memory.addr_type
          → Reads fl next wants ws i i'
          → (rest : List CoreType) × (j : I) × (lift_flat_payload host (coerce_next fl next) cs n
                kept (wants, i)
              ≡ ok ((v, (rest, j)), kept))
            × (skip_rest fl next rest j ≡ ok i'))

  pub no_payload-Carried :
      (label : String) (cs : Cases) (cx : HostCx host) (v : HostValue host) (wants : List CoreType)
      → v ≡ Value.null
      → PayloadCarried (case_then label Payload.null cs) 0 cx v wants
  unfolding lower_flat_payload lift_flat_payload
  no_payload-Carried label cs cx v wants e = (
    pad fl fl.nought wants,
    pad-AreLanes fl wants,
    refl,
    λ I next kept i i' addr r.
        let (rest, j, read, skipped) =
          coerce_next-Reads fl next [] wants (pad fl fl.nought wants) tt i i' tt r in
        (rest, j, rw e (ap (λ s. ok ((Value.null, s), kept)) read), skipped),
  )

  pub first_payload-Carried :
      (label : String) (t : DespecializedType) (cs : Cases) (cx : HostCx host) (v : HostValue host)
      (haves wants : List CoreType)
      → flatten_type (some cx.memory.addr_type) t ≡ ok haves
      → LanesFit haves wants
      → FlatCarried t cx v haves
      → PayloadCarried (case_then label (type t) cs) 0 cx v wants
  unfolding lower_flat_payload lift_flat_payload lower_into
  first_payload-Carried label t cs cx v haves wants flat fit (vs, are, lo, li) =
      let (ws, lanes, is, back) = lower_lanes-CoercesBack fl haves wants vs fit are in
      (
        ws,
        is,
        rw (lo, flat, of_cores-to_cores fl haves vs, lanes) refl,
        λ I next kept i i' addr r.
            let (rest, j, reads, skipped) =
              coerce_next-Reads fl next haves wants ws vs i i' back r in
            (
              rest,
              j,
              li (List CoreType × I) (coerce_next fl next) kept (wants, i) (rest, j) addr reads,
              skipped,
            ),
      )
