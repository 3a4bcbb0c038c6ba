-- ===== src/Logger.antt =====
-- The logger of package p, p/log.go: what doLog does with each message of its channels, on the ring of
-- the entries. An owner is known by a number, as `==` tells interface values apart; the channels
-- themselves are left out, and `make([]*Log, sz)` is of a size that is not negative.
pub mod Ring
mod Examples
use chan.Prelude.{
  ℕ, zero, suc, ◌+◌, ◌-◌, ◌==◌, ◌&&◌, ◌||◌, Bool, true, false, not, leb, ltb, Option, none, some,
  List, [], ◌∷◌, ◌++◌, length, if◌then◌else◌,
}

pub record Log (D : Type 0) : Type 0 where
  pub dat : D
  pub owner : ℕ
  pub type : ℕ

pub record Logger (D : Type 0) : Type 0 where
  pub items : List (Option (Log D))
  pub idx : ℕ

module _ {D : Type 0} where
  abbrev pub nils : ℕ → List (Option (Log D))
  nils zero = []
  nils (suc n) = none ∷ nils n

  -- NewLogger returns nil for a size of 0.
  abbrev pub new_logger : ℕ → Option (Logger D)
  new_logger zero = none
  new_logger (suc n) = some (record { items = nils (suc n); idx = 0 })

  abbrev pub set_at : List (Option (Log D)) → ℕ → Option (Log D) → List (Option (Log D))
  set_at [] k v = []
  set_at (x ∷ xs) zero v = v ∷ xs
  set_at (x ∷ xs) (suc k) v = x ∷ set_at xs k v

  abbrev pub item_at : List (Option (Log D)) → ℕ → Option (Log D)
  item_at [] k = none
  item_at (x ∷ xs) zero = x
  item_at (x ∷ xs) (suc k) = item_at xs k

  -- `if i >= len(l.items) { i = 0 }`
  abbrev pub around : Logger D → ℕ → ℕ
  around l i = if leb (length l.items) i then 0 else i

  -- `case it := <-l.logchan`
  unfoldable pub log : Log D → Logger D → Logger D
  log it l = record { items = set_at l.items (around l l.idx) (some it); idx = around l l.idx + 1 }

  -- The loop of a resize: `n` places are left in the new array.
  unfoldable pub copied : Logger D → ℕ → ℕ → List (Option (Log D))
  copied l zero i = []
  copied l (suc n) i =
      let k = around l i in
      let rest = copied l n (k + 1) in item_at l.items k ∷ (if k + 1 == l.idx then nils n else rest)

  -- Resize drops a size of 0; otherwise `case sz := <-l.rszchan`.
  unfoldable pub resize : ℕ → Logger D → Logger D
  unfolding copied
  resize zero l = l
  resize (suc n) l = record { items = copied l (suc n) l.idx; idx = 0 }

  abbrev pub matches : Option ℕ → ℕ → Log D → Bool
  matches owner itype it = is_owner owner it.owner && ((itype == 0) || (it.type == itype))
    where
      is_owner : Option ℕ → ℕ → Bool
      is_owner none o = true
      is_owner (some x) o = x == o

  -- The number of the entries that a filter lets through.
  unfoldable pub counted : Option ℕ → ℕ → List (Option (Log D)) → ℕ
  counted owner itype [] = 0
  counted owner itype (none ∷ xs) = counted owner itype xs
  counted owner itype (some it ∷ xs) =
      (if matches owner itype it then 1 else 0) + counted owner itype xs

  -- The second loop of a filter, until `n` more entries are found; two units of fuel for each place are
  -- more than it takes.
  unfoldable pub collected : ℕ → Option ℕ → ℕ → Logger D → ℕ → ℕ → List (Log D)
  collected zero owner itype l n i = []
  collected (suc fuel) owner itype l zero i = []
  collected (suc fuel) owner itype l (suc n) i =
      let k = around l i in
      let past = collected fuel owner itype l (suc n) (k + 1) in
      let more = collected fuel owner itype l n (k + 1) in
      elim (item_at l.items k) [
        | none ↦ past
        | some it ↦ if matches owner itype it then it ∷ more else past
      ]

  unfoldable pub filter : Option ℕ → ℕ → Logger D → List (Log D)
  unfolding counted collected
  filter owner itype l =
      collected (suc (length l.items + length l.items)) owner itype l (counted owner itype l.items)
        l.idx
