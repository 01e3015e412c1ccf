-- ===== src/Task/Buffer/Copy.antt =====
-- What a copy from one buffer to another does.
use polyengine.Base.{
  ℕ, zero, suc, ◌+◌, ◌*◌, ◌≤◌, ◌≡◌, refl, sym, ap, ◌∙◌, ok, ok_injective, >>=-eq-ok, assert-eq,
  if_false, le→leb, ◌&&◌, arith,
}
use polyengine.Cabi.Types.{MaybeType, ValType}
use polyengine.Cabi.Types.Despecialize.{despecialize_all}
use polyengine.Cabi.Layout.{Layout, layout_of}
use polyengine.Cabi.Float.{Floats}
use polyengine.Cabi.Value.{Host, array, element_count}
use polyengine.Cabi.Access.{HostCx}
use polyengine.Cabi.Bulk.{HostElements}
use polyengine.Cabi.Lists.{load_elements, load_remaining, elements_of, Reader}
use polyengine.Cabi.Store.{load}
use polyengine.Cabi.Store.Typing.{Typed, AllElements}
use polyengine.Cabi.Store.Scalars.{Holds}
use polyengine.Cabi.Store.Arrays.{FitsAll}
use polyengine.Cabi.Store.BulkLoad.{load_list_from_valid_range-loop}
use polyengine.Cabi.Store.ListValues.{store_range-StoresList}
use polyengine.Cabi.Store.RoundTrip.{load-store}
use polyengine.Task.Waitable.{put}
use polyengine.Task.Buffer.{
  Buffer, Contexts, remain, is_null, advanced, load_range, store_range, read_elements, buffer_read,
  write_elements, buffer_write, copy_elements, rendezvous_copy,
}

module _ {fl : Floats} (host : Host fl) where
  load_elements-count :
      (reader : Reader host) (size n : ℕ) (cx cx' : HostCx host) (ptr : ℕ) (vs : HostElements host)
      → load_elements host reader cx ptr size n ≡ ok (vs, cx')
      → element_count vs ≡ n
  unfolding load_elements element_count
  load_elements-count reader size zero cx cx' ptr vs e =
      ap (λ r. element_count r.0) (sym (ok_injective e))
  load_elements-count reader size (suc n) cx cx' ptr vs e =
      let ((v, cx₁), _, rest) = >>=-eq-ok (reader cx ptr) _ e in
      let ((ws, cx₂), loaded, made) =
        >>=-eq-ok (load_elements host reader cx₁ (ptr + size) size n) _ rest in
      ap (λ r. element_count r.0) (sym (ok_injective made))
      ∙ ap suc (load_elements-count reader size n cx₁ cx₂ (ptr + size) ws loaded)

  array_injective : {vs ws : HostElements host} → array vs ≡ array ws → vs ≡ ws
  array_injective e = cc

  -- A range of `n` elements loads as an array of `n` elements.
  load_range-count :
      (t : ValType) (cx cx' : HostCx host) (ptr n : ℕ) (vs : HostElements host) {l : Layout}
      → FitsAll host (despecialize_all t) cx ptr n l
      → load_range host t cx ptr n ≡ ok (array vs, cx')
      → element_count vs ≡ n
  unfolding load_range load_remaining
  load_range-count t cx cx' ptr n vs {l} (laid, aligned, inside) e =
      let looped =
        sym (load_list_from_valid_range-loop host (despecialize_all t) cx ptr n laid aligned inside)
        ∙ e in
      let ((ws, cx₁), loaded, made) =
        >>=-eq-ok (load_elements host (λ c p. load host (despecialize_all t) c p) cx ptr l.size n) _
          looped in
      ap element_count (sym (array_injective (ap (λ r. r.0) (ok_injective made))))
      ∙ load_elements-count _ l.size n cx cx₁ ptr ws loaded

  -- The next `n` elements of a buffer of type `t` are in its memory, where they load as `vs`.
  unfoldable pub Sends :
      Contexts host → Buffer → ℕ → ValType → Layout → HostElements host → HostCx host → Type 0
  Sends contexts b n t l vs cx =
      (b.elem ≡ MaybeType.type t)
      × FitsAll host (despecialize_all t) (contexts b.cx) b.ptr n l
      × (load_range host t (contexts b.cx) b.ptr n ≡ ok (array vs, cx))

  -- A buffer of type `t` has room in its memory for `n` elements at its cursor, and `vs` fit there.
  unfoldable pub Receives :
      Contexts host → Buffer → ℕ → ValType → Layout → HostElements host → Type 0
  Receives contexts b n t l vs =
      (b.elem ≡ MaybeType.type t)
      × FitsAll host (despecialize_all t) (contexts b.cx) b.ptr n l
      × AllElements host (λ w. Typed host (despecialize_all t) w) vs

  -- `vs` are in the memory of `b` at its cursor, and load from there while their bytes are kept. All
  -- else in the contexts is as before.
  unfoldable pub Received :
      Contexts host → Buffer → ℕ → ValType → Layout → HostElements host → Contexts host → Type 0
  Received contexts b n t l vs contexts' =
      (cx : HostCx host) × (contexts' ≡ put contexts b.cx cx)
      × Holds host (λ kept. load_range host t kept b.ptr n) (array vs) (contexts b.cx) b.ptr
          (n * l.size) cx

  buffer_read-eq :
      (contexts : Contexts host) (b : Buffer) (n : ℕ) (t : ValType) (l : Layout)
      (vs : HostElements host) (cx : HostCx host)
      → n ≤ remain b
      → Sends contexts b n t l vs cx
      → buffer_read host contexts b n ≡ ok (vs, advanced b n l.size, put contexts b.cx cx)
  unfolding buffer_read read_elements elements_of layout_of Sends
  buffer_read-eq contexts b n t l vs cx enough (typed, (laid, _, _), loads) =
      assert-eq _ _ (read_elements host contexts b n b.elem) (le→leb _ _ enough)
      ∙ ap (λ e. read_elements host contexts b n e) typed
      ∙ rw (laid, loads) refl

  buffer_write-Received :
      (contexts : Contexts host) (b : Buffer) (n : ℕ) (t : ValType) (l : Layout)
      (vs : HostElements host)
      → n ≤ remain b
      → element_count vs ≡ n
      → Receives contexts b n t l vs
      → (contexts' : Contexts host) × (buffer_write host contexts b vs
          ≡ ok (advanced b n l.size, contexts'))
        × Received contexts b n t l vs contexts'
  unfolding buffer_write write_elements layout_of Receives Received store_range load_range
  buffer_write-Received contexts b n t l vs enough count (typed, (laid, aligned, inside), fits) =
      let (cx, stored, held) =
        store_range-StoresList host (despecialize_all t) l (contexts b.cx) vs b.ptr
          (λ c w p h room. load-store host (despecialize_all t) c w p h room.0 room.1 room.2) fits
          (laid, aligned, rw count inside) in
      (
        put contexts b.cx cx,
        assert-eq _ _ (write_elements host contexts b vs b.elem)
              (le→leb _ _ (omega (arith, enough, count)))
            ∙ ap (λ e. write_elements host contexts b vs e) typed
            ∙ rw (laid, stored, count) refl,
        (cx, refl, rw (sym count) held),
      )

  -- The next `n` elements of `src` are copied to the cursor of `dst`.
  pub copy_elements-Received :
      (contexts : Contexts host) (src dst : Buffer) (n : ℕ) (t u : ValType) (l m : Layout)
      (vs : HostElements host) (cx : HostCx host)
      → n ≤ remain src
      → n ≤ remain dst
      → Sends contexts src n t l vs cx
      → Receives (put contexts src.cx cx) dst n u m vs
      → (contexts' : Contexts host) × (copy_elements host contexts src dst n
          ≡ ok (advanced src n l.size, advanced dst n m.size, contexts'))
        × Received (put contexts src.cx cx) dst n u m vs contexts'
  unfolding Sends copy_elements
  copy_elements-Received contexts src dst n t u l m vs cx full room sends receives =
      let count = load_range-count t (contexts src.cx) cx src.ptr n vs sends.1 sends.2 in
      let (contexts', written, received) =
        buffer_write-Received (put contexts src.cx cx) dst n u m vs room count receives in
      (
        contexts',
        rw (buffer_read-eq contexts src n t l vs cx full sends) (rw written refl),
        received,
      )

  pub rendezvous_copy-Received :
      (contexts : Contexts host) (src dst : Buffer) (n : ℕ) (t u : ValType) (l m : Layout)
      (vs : HostElements host) (cx : HostCx host)
      → n ≤ remain src
      → n ≤ remain dst
      → Sends contexts src n t l vs cx
      → Receives (put contexts src.cx cx) dst n u m vs
      → (contexts' : Contexts host) × (rendezvous_copy host contexts src dst n
          ≡ ok (advanced src n l.size, advanced dst n m.size, contexts'))
        × Received (put contexts src.cx cx) dst n u m vs contexts'
  unfolding rendezvous_copy Sends is_null
  rendezvous_copy-Received contexts src dst n t u l m vs cx full room sends receives =
      let (contexts', copies, received) =
        copy_elements-Received contexts src dst n t u l m vs cx full room sends receives in
      (
        contexts',
        if_false _ _ _ (ap (λ e. is_null e && is_null dst.elem) sends.0) ∙ copies,
        received,
      )
