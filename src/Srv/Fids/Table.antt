-- ===== src/Srv/Fids/Table.antt =====
-- The invariant of the fid table of a connection (Conn.fidpool), and that FidNew, FidGet and DecRef
-- keep it.
use chan.Prelude.{
  List, ℕ, zero, suc, ◌<◌, ◌≡◌, ◌≢◌, ◌⊎◌, inl, inr, refl, sym, ◌∙◌, ap, arith, true, false,
  Bool-cases, Option, none, some, ◌∷◌, [], ◌++◌, if◌then◌else◌,
}
use chan.Prelude.Int.{ℤ, pos, negsuc, inc, dec, is_pos}
use chan.Srv.State.{FidPtr, Fid, Call, fid_destroy, Conn, Ops, done, update}
use chan.Srv.Fids.{drop_fid, dec_ref, got, fid_get, new_entry, fid_new}
use chan.Srv.Fids.Laws.{with_count, set_cell, update-same, update-other, inc_ref_run, dec_ref_stays}

-- A cell that the table may name under `n`: it holds a fid of that number with at least one
-- reference, and it is not beyond those that have been handed out.
abbrev pub IsEntry : Conn → ℕ → FidPtr → Type 0
IsEntry s n p =
    (f : Fid) × (s.fids p ≡ some f) × (f.fid ≡ n) × (is_pos f.refcount ≡ true) × (p < s.next_fid)

abbrev pub IsTable : Conn → Type 0
IsTable s = (n : ℕ) (p : FidPtr) → s.fidpool n ≡ some p → IsEntry s n p

inc_positive : (z : ℤ) → is_pos z ≡ true → is_pos (inc z) ≡ true
inc_positive (pos zero) h = refl
inc_positive (pos (suc n)) h = refl
inc_positive (negsuc n) h = ground arith

eq_cases : (a b : ℕ) → (a ≡ b) ⊎ (a ≢ b)
eq_cases a b = omega arith

-- The cell of a fid is written with another positive count.
set_cell-IsTable :
    (s : Conn) (p : FidPtr) (f : Fid) (z : ℤ)
    → IsTable s
    → s.fids p ≡ some f
    → is_pos z ≡ true
    → IsTable (set_cell p (with_count f z) s)
set_cell-IsTable s p f z ok cell more n q known =
    let (g, there, number, positive, old) = ok n q known in
    elim (eq_cases p q) [
      | inl e ↦
          let g-is-f : some g ≡ some f = sym there ∙ ap s.fids (sym e) ∙ cell in
          (
            with_count f z,
            ap (update s.fids p (some (with_count f z))) (sym e)
                ∙ update-same s.fids p (some (with_count f z)),
            cc,
            more,
            old,
          )
      | inr e ↦
          (g, update-other s.fids p q (some (with_count f z)) e ∙ there, number, positive, old)
    ]

got-IsTable :
    (s : Conn) (n : ℕ) (present : Option FidPtr)
    → s.fidpool n ≡ present
    → IsTable s
    → (s' : Conn) × (got present s ≡ done (present, s')) × IsTable s'
unfolding got
got-IsTable s n none h ok = (s, refl, ok)
got-IsTable s n (some p) h ok =
    let (f, there, number, positive, old) = ok n p h in
    (
      set_cell p (with_count f (inc f.refcount)) s,
      rw (inc_ref_run s p f there),
      set_cell-IsTable s p f (inc f.refcount) ok there (inc_positive f.refcount positive),
    )

-- FidGet on a table that keeps the invariant returns what the table has under the number, and keeps
-- the invariant.
pub fid_get-IsTable :
    (s : Conn) (n : ℕ)
    → IsTable s
    → (s' : Conn) × (fid_get n s ≡ done (s.fidpool n, s')) × IsTable s'
unfolding fid_get
fid_get-IsTable s n ok = got-IsTable s n (s.fidpool n) refl ok

update-hit :
    {A : Type 0} (m : ℕ → Option A) (k j : ℕ) (a : A)
    → update m k none j ≡ some a
    → (k ≢ j) × (m j ≡ some a)
update-hit m k j a h = (λ e. ground arith, ground arith)

some_injective : {a b : ℕ} → some a ≡ some b → a ≡ b
some_injective e = cc

same_number : {f g : Fid} {n : ℕ} → some g ≡ some f → g.fid ≡ n → f.fid ≡ n
same_number e h = cc

-- The entry of a fid's number is taken out, and its cell is written with any count.
drop-IsTable :
    (s : Conn) (p : FidPtr) (f : Fid) (z : ℤ) (calls : List Call)
    → IsTable s
    → s.fids p ≡ some f
    → IsTable (record (set_cell p (with_count f z) s) {
      fidpool = update s.fidpool f.fid none;
      calls = calls;
    })
drop-IsTable s p f z calls ok cell n q known =
    let (other, was) = update-hit s.fidpool f.fid n q known in
    let (g, there, number, positive, old) = ok n q was in
    let apart : p ≢ q = λ e. other (same_number (sym there ∙ ap s.fids (sym e) ∙ cell) number) in
    (g, update-other s.fids p q (some (with_count f z)) apart ∙ there, number, positive, old)

-- DecRef on a cell that holds a fid keeps the table: the fid stays in it while a reference is left,
-- and leaves it with the last.
pub dec_ref-IsTable :
    (ops : Ops) (s : Conn) (p : FidPtr) (f : Fid)
    → IsTable s
    → s.fids p ≡ some f
    → (s' : Conn) × (dec_ref ops p s ≡ done (tt, s'))
      × (s'.fidpool f.fid ≡ (if is_pos (dec f.refcount) then s.fidpool f.fid else none))
      × IsTable s'
unfolding dec_ref drop_fid
dec_ref-IsTable ops s p f ok cell = elim (Bool-cases (is_pos (dec f.refcount))) [
  | inl more ↦ (
    set_cell p (with_count f (dec f.refcount)) s,
    dec_ref_stays ops s p f cell more,
    rw more,
    set_cell-IsTable s p f (dec f.refcount) ok cell more,
  )
  | inr last ↦ elim (Bool-cases ops.has_fid_ops) [
    | inl told ↦ (
      record (set_cell p (with_count f (dec f.refcount)) s) {
        fidpool = update s.fidpool f.fid none;
        calls = s.calls ++ fid_destroy p ∷ [];
      },
      rw (cell, last, told),
      rw (last, update-same s.fidpool f.fid none),
      drop-IsTable s p f (dec f.refcount) (s.calls ++ fid_destroy p ∷ []) ok cell,
    )
    | inr not_told ↦ (
      record (set_cell p (with_count f (dec f.refcount)) s) {
        fidpool = update s.fidpool f.fid none;
      },
      rw (cell, last, not_told),
      rw (last, update-same s.fidpool f.fid none),
      drop-IsTable s p f (dec f.refcount) s.calls ok cell,
    )
  ]
]

-- What `new(Fid)` holds, and the connection with it in the table.
abbrev pub new_fid : ℕ → Fid
new_fid n = record {
  fid = n;
  refcount = pos 1;
  opened = false;
  omode = 0;
  type = 0;
  diroffset = 0;
  user = none;
}

abbrev pub added : Conn → ℕ → Conn
added s n = record s {
  fids = update s.fids s.next_fid (some (new_fid n));
  next_fid = suc s.next_fid;
  fidpool = update s.fidpool n (some s.next_fid);
}

added-IsTable : (s : Conn) (n : ℕ) → IsTable s → IsTable (added s n)
added-IsTable s n ok m q known = elim (eq_cases n m) [
  | inl e ↦
      let same : s.next_fid ≡ q = some_injective (
        sym (update-same s.fidpool n (some s.next_fid))
        ∙ ap (update s.fidpool n (some s.next_fid)) e
        ∙ known) in
      (
        new_fid n,
        ap (update s.fids s.next_fid (some (new_fid n))) (sym same)
            ∙ update-same s.fids s.next_fid (some (new_fid n)),
        e,
        refl,
        omega arith,
      )
  | inr e ↦
      let (g, there, number, positive, old) =
        ok m q (sym (update-other s.fidpool n m (some s.next_fid) e) ∙ known) in
      (
        g,
        update-other s.fids s.next_fid q (some (new_fid n)) (λ c. omega arith) ∙ there,
        number,
        positive,
        omega arith,
      )
]

-- FidNew of a number that is not in the table enters a cell that was not in use under it, and
-- leaves all other entries; the table is kept, and the number is refused from then on.
pub fid_new-IsTable :
    (s : Conn) (n : ℕ)
    → IsTable s
    → s.fidpool n ≡ none
    → (s' : Conn) × (fid_new n s ≡ done (some s.next_fid, s'))
      × (s'.fidpool n ≡ some s.next_fid)
      × ((m : ℕ) → n ≢ m → (s'.fidpool m ≡ s.fidpool m) × (s.fidpool m ≢ some s.next_fid))
      × (fid_new n s' ≡ done (none, s'))
      × IsTable s'
unfolding fid_new new_entry
fid_new-IsTable s n ok absent =
    let s' = added s n in
    let entered = update-same s.fidpool n (some s.next_fid) in
    (
      s',
      rw absent,
      entered,
      λ m e. (
        update-other s.fidpool n m (some s.next_fid) e,
        λ known. let (_, _, _, _, old) = ok m s.next_fid known in omega arith,
      ),
      rw entered,
      added-IsTable s n ok,
    )
