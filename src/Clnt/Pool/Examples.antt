-- ===== src/Clnt/Pool/Examples.antt =====
-- Runs of the id pools of p/clnt/pool.go and p/chan9/pool.go.
use chan.Prelude.{ℕ, zero, suc, ◌<◌, ◌≡◌, refl, arith, true, [], ◌∷◌}
use chan.Clnt.Pool.{
  Pool, gives, freed, out_of_range, new_pool, get_id, put_id, put_fid, first_free, grown, ready,
  take_id, nth, set_nth,
}
use chan.Clnt.Pool.Ids.{in_use, IsPool}
use chan.Clnt.Pool.Get.{IsGot, get_id-IsGot, get_id_last}
use chan.Clnt.Pool.Return.{put_id-get_id}

-- Eight tags, of which three are in use.
abbrev few : Pool
few = record { need = 0; maxid = 7; imap = 7 ∷ [] }

few-IsPool : IsPool few
few-IsPool = ((omega arith, tt), omega arith)

get_id-IsGot_example : IsGot few (get_id few)
get_id-IsGot_example = get_id-IsGot few few-IsPool (omega arith)

-- Seven tags in use, and the last one free.
abbrev nearly : Pool
nearly = record { need = 0; maxid = 7; imap = 127 ∷ [] }

below_seven : (j : ℕ) → j < 7 → in_use (127 ∷ []) j ≡ true
unfolding nth
below_seven zero h = refl
below_seven (suc zero) h = refl
below_seven (suc (suc zero)) h = refl
below_seven (suc (suc (suc zero))) h = refl
below_seven (suc (suc (suc (suc zero)))) h = refl
below_seven (suc (suc (suc (suc (suc zero))))) h = refl
below_seven (suc (suc (suc (suc (suc (suc zero)))))) h = refl
below_seven (suc (suc (suc (suc (suc (suc (suc j))))))) h = absurd (omega arith)

get_id_last_example : (p' : Pool) × (get_id nearly ≡ gives 7 p')
unfolding nth
get_id_last_example =
    get_id_last nearly ((omega arith, tt), omega arith) (omega arith) refl below_seven refl

abbrev taken : Pool
taken = record { need = 0; maxid = 7; imap = 15 ∷ [] }

gives_three : get_id few ≡ gives 3 taken
unfolding get_id ready take_id first_free nth set_nth
gives_three = refl

put_id-get_id_example :
    (p'' : Pool) × (put_id taken 3 ≡ freed p'')
    × ((j : ℕ) → in_use p''.imap j ≡ in_use few.imap j)
    × IsPool p''
put_id-get_id_example = put_id-get_id few taken 3 few-IsPool (omega arith) refl gives_three

-- The first id of a new pool of tags is 0, and the bitmap has 32 bytes then.
new_gives : (p : Pool) × (get_id (new_pool 0xffff) ≡ gives 0 p)
unfolding get_id ready grown take_id first_free nth set_nth
new_gives = (_, refl)

no_fid : put_fid (new_pool 0xffffffff) 0xffffffff ≡ freed (new_pool 0xffffffff)
unfolding put_fid
no_fid = refl

never_given : put_id (new_pool 0xffff) 3 ≡ out_of_range
unfolding put_id
never_given = refl
