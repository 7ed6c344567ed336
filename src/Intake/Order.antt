-- ===== src/Intake/Order.antt =====
-- The order of the code units, by which src/intake/hash.ts and src/intake/repository.ts sort.
use aisdlc.Prelude.{◌≡◌, refl, arith, true, false, List, [], ◌∷◌, ◌≢◌}
use aisdlc.Text.{Text}
use aisdlc.Intake.Hash.{less, insert_text, insert_entry}

pub less-asym : (s t : Text) → less s t ≡ true → less t s ≡ false
unfolding less
less-asym [] [] h = refl
less-asym [] (b ∷ t) h = refl
less-asym (a ∷ s) [] h = cc
less-asym (a ∷ s) (b ∷ t) h = ground (arith, less-asym s t)

pub less_trans : (s t u : Text) → less s t ≡ true → less t u ≡ true → less s u ≡ true
unfolding less
less_trans [] [] u h k = cc
less_trans (a ∷ s) [] u h k = cc
less_trans s (b ∷ t) [] h k = cc
less_trans [] (b ∷ t) (c ∷ u) h k = refl
less_trans (a ∷ s) (b ∷ t) (c ∷ u) h k = ground (arith, less_trans s t u)

pub less-connex : (s t : Text) → less s t ≡ false → less t s ≡ false → s ≡ t
unfolding less
less-connex [] [] h k = refl
less-connex [] (b ∷ t) h k = cc
less-connex (a ∷ s) [] h k = cc
less-connex (a ∷ s) (b ∷ t) h k = ground (arith, less-connex s t)

-- Two insertions commute: equal texts cannot be told apart.
pub insert_text_comm :
    (a b : Text) (cs : List Text)
    → insert_text a (insert_text b cs) ≡ insert_text b (insert_text a cs)
unfolding insert_text
insert_text_comm a b [] =
    let ab = less-asym a b in let ba = less-asym b a in let eq = less-connex a b in ground arith
insert_text_comm a b (c ∷ cs) =
    let rest = insert_text_comm a b cs in
    let ab = less-asym a b in
    let eq = less-connex a b in
    let cab = less_trans c a b in
    let cba = less_trans c b a in
    let abc = less_trans a b c in
    let bac = less_trans b a c in
    let ca = less-asym c a in
    let cb = less-asym c b in
    let bca = less_trans b c a in let acb = less_trans a c b in ground arith

pub insert_entry_comm {ℓ} :
    {V : Type ℓ} (a b : Text) (v w : V) (cs : List (Text × V))
    → a ≢ b
    → insert_entry a v (insert_entry b w cs) ≡ insert_entry b w (insert_entry a v cs)
unfolding insert_entry
insert_entry_comm a b v w [] differ =
    let ab = less-asym a b in let ba = less-asym b a in let eq = less-connex a b in ground arith
insert_entry_comm a b v w ((c, u) ∷ cs) differ =
    let rest = insert_entry_comm a b v w cs differ in
    let ab = less-asym a b in
    let eq = less-connex a b in
    let cab = less_trans c a b in
    let cba = less_trans c b a in
    let abc = less_trans a b c in
    let bac = less_trans b a c in
    let ca = less-asym c a in
    let cb = less-asym c b in
    let bca = less_trans b c a in let acb = less_trans a c b in ground arith
