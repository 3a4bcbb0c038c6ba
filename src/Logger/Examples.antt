-- ===== src/Logger/Examples.antt =====
-- A logger of three places.
use chan.Prelude.{ℕ, ◌≡◌, refl, arith, none, some, List, [], ◌∷◌, ◌++◌, drop}
use chan.Logger.{Log, Logger, nils, log, resize, copied, filter, counted, collected}
use chan.Logger.Ring.{ring, IsRing, log_all, held, log_all-ring}

abbrev said : ℕ → Log ℕ
said n = record { dat = n; owner = 1; type = 4 }

abbrev three : Logger ℕ
three = record { items = nils 3; idx = 0 }

abbrev four_said : List (Log ℕ)
four_said = said 1 ∷ said 2 ∷ said 3 ∷ said 4 ∷ []

log_all-ring_example :
    IsRing (log_all four_said three)
    × (ring (log_all four_said three) ≡ drop 4 (nils 3 ++ held four_said))
log_all-ring_example = log_all-ring four_said three (omega arith, omega arith)

-- A filter gives the entries in the order of their coming.
filtered : filter (some 1) 0 (log_all four_said three) ≡ said 2 ∷ said 3 ∷ said 4 ∷ []
unfolding filter counted collected log
filtered = refl

-- A logger that was resized, and is resized again: the second time its entry is there twice.
twice :
    filter none 4 (resize 3 (resize 1 (log (said 1) (record { items = nils 1; idx = 0 }))))
    ≡ said 1 ∷ said 1 ∷ said 1 ∷ []
unfolding filter counted collected log resize copied
twice = refl

-- A logger that is made smaller keeps the oldest entries.
shrunk : filter none 0 (resize 1 (log_all four_said three)) ≡ said 2 ∷ []
unfolding filter counted collected log resize copied
shrunk = refl
