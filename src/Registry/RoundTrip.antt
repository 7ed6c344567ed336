-- ===== src/Registry/RoundTrip.antt =====
-- The parser of repository URLs (Branches) against the URLs that GitHub gives out.
use aisdlc.Prelude.{
  ◌≡◌, refl, arith, ◌++◌, Bool, true, false, every, ℕ, ◌∷◌, [], some, length, length-append, ap,
  ◌∙◌, sym,
}
use mathlib.Core.List.{append_assoc, append-nil}
use aisdlc.Text.{Text, same, trim, trim_start, trim_end, is_space, is_empty, codes}
use aisdlc.Registry.Branches.{
  is_name_unit, span_name, without_git, dot_git, github_prefix, parse_owner_and_repo, match_owner,
  match_repo, is_url_end, after_prefix, after_github,
}
use aisdlc.Text.Laws.{same→eq}

-- `https://github.com/<owner>/<repo>.git`
unfoldable pub clone_url : Text → Text → Text
unfolding github_prefix dot_git
clone_url owner name = github_prefix ++ (owner ++ b'/' ∷ (name ++ dot_git))

span_name-append :
    (xs rest : Text)
    → every is_name_unit xs ≡ true
    → span_name rest ≡ ([], rest)
    → span_name (xs ++ rest) ≡ (xs, rest)
unfolding every span_name
span_name-append [] rest h stop = stop
span_name-append (x ∷ xs) rest h stop = ground (arith, span_name-append xs rest)

same-empty : (s t : Text) → same (s ++ t) t ≡ true → s ≡ []
unfolding same
same-empty [] t h = refl
same-empty (x ∷ s) t h =
    let e = ap length (same→eq (x ∷ s ++ t) t h) in
    absurd (omega (arith, e, length-append (x ∷ s) t))

without_git-append : (x : ℕ) (xs : Text) → without_git (x ∷ xs ++ dot_git) ≡ x ∷ xs
unfolding without_git dot_git same
without_git-append x [] = refl
without_git-append x (y ∷ ys) =
    ground (arith, without_git-append y ys, same-empty (y ∷ ys) (codes ".git"))

without_git-given : (name : Text) → is_empty name ≡ false → without_git (name ++ dot_git) ≡ name
unfolding is_empty
without_git-given [] h = cc
without_git-given (x ∷ xs) h = without_git-append x xs

trim_end-append :
    (xs : Text) (d : ℕ) (r : Text) → trim_end (d ∷ r) ≡ d ∷ r → trim_end (xs ++ d ∷ r) ≡ xs ++ d ∷ r
unfolding trim_end
trim_end-append [] d r h = h
trim_end-append (x ∷ []) d r h = ground arith
trim_end-append (x ∷ y ∷ ys) d r h = ground (arith, trim_end-append (y ∷ ys) d r h)

trim_start-prefix : (s : Text) → trim_start (github_prefix ++ s) ≡ github_prefix ++ s
unfolding trim_start github_prefix is_space
trim_start-prefix s = refl

after_prefix-append : (p s : Text) → after_prefix p (p ++ s) ≡ some s
unfolding after_prefix
after_prefix-append [] s = refl
after_prefix-append (a ∷ p) s = ground (arith, after_prefix-append p s)

every-append :
    (p : ℕ → Bool) (xs ys : Text)
    → every p xs ≡ true
    → every p ys ≡ true
    → every p (xs ++ ys) ≡ true
unfolding every
every-append p [] ys h k = k
every-append p (x ∷ xs) ys h k = ground (arith, every-append p xs ys)

module _ (owner name : Text) (owner_ok : every is_name_unit owner ≡ true)
    (name_ok : every is_name_unit name ≡ true) (owner_given : is_empty owner ≡ false)
    (name_given : is_empty name ≡ false) where
  trim-url :
      (m : Text) (d : ℕ) (r : Text)
      → trim_end (d ∷ r) ≡ d ∷ r
      → trim (github_prefix ++ (owner ++ b'/' ∷ (m ++ d ∷ r)))
        ≡ github_prefix ++ (owner ++ b'/' ∷ (m ++ d ∷ r))
  unfolding trim
  trim-url m d r h =
      let e : (github_prefix ++ (owner ++ b'/' ∷ m)) ++ d ∷ r
          ≡ github_prefix ++ (owner ++ b'/' ∷ (m ++ d ∷ r)) =
        simp append_assoc in
      rw (trim_start-prefix (owner ++ b'/' ∷ (m ++ d ∷ r)))
        (rw e at (trim_end-append (github_prefix ++ (owner ++ b'/' ∷ m)) d r h))

  slash-stops : (s : Text) → span_name (b'/' ∷ s) ≡ ([], b'/' ∷ s)
  unfolding span_name is_name_unit
  slash-stops s = refl

  git_given : is_empty (name ++ dot_git) ≡ false
  unfolding is_empty dot_git
  git_given = elim name as (λ n. is_empty (n ++ dot_git) ≡ false) [ [] ↦ refl | x ∷ xs ↦ refl ]

  git_ok : every is_name_unit (name ++ dot_git) ≡ true
  unfolding is_name_unit every dot_git
  git_ok = every-append is_name_unit name dot_git name_ok refl

  parse-rest :
      (rest : Text)
      → span_name rest ≡ ([], rest)
      → is_url_end rest ≡ true
      → match_owner (span_name (owner ++ b'/' ∷ ((name ++ dot_git) ++ rest))) ≡ some (owner, name)
  unfolding match_owner match_repo
  parse-rest rest stop final =
      let first =
        span_name-append owner (b'/' ∷ ((name ++ dot_git) ++ rest)) owner_ok
          (slash-stops ((name ++ dot_git) ++ rest)) in
      let second = span_name-append (name ++ dot_git) rest git_ok stop in
      ap match_owner first
      ∙ rw (match_owner, owner_given)
          (ap (match_repo owner) second
            ∙ rw (match_repo, git_given, final, without_git-given name name_given) refl)

  parse-url :
      (rest : Text)
      → span_name rest ≡ ([], rest)
      → is_url_end rest ≡ true
      → (url : Text) → trim url ≡ url
      → url ≡ github_prefix ++ (owner ++ b'/' ∷ ((name ++ dot_git) ++ rest))
      → parse_owner_and_repo url ≡ some (owner, name)
  unfolding parse_owner_and_repo
  parse-url rest stop final url trimmed e =
      ap after_github (
        ap (after_prefix github_prefix) (trimmed ∙ e)
        ∙ after_prefix-append github_prefix (owner ++ b'/' ∷ ((name ++ dot_git) ++ rest)))
      ∙ parse-rest rest stop final

  -- For an owner and a repository name that are not empty and consist of the units that the URL
  -- pattern allows, the clone URL that GitHub gives out, with or without a slash at its end, is
  -- parsed to that owner and that name.
  pub parse-clone_url :
      (parse_owner_and_repo (clone_url owner name) ≡ some (owner, name))
      × (parse_owner_and_repo (clone_url owner name ++ codes "/") ≡ some (owner, name))
  unfolding clone_url dot_git trim_end is_space span_name is_name_unit is_url_end
  parse-clone_url =
      let e : github_prefix ++ (owner ++ b'/' ∷ ((name ++ dot_git) ++ codes "/"))
          ≡ clone_url owner name ++ codes "/" =
        simp append_assoc in
      (
        parse-url [] refl refl (clone_url owner name) (trim-url name b'.' (codes "git") refl)
            (simp append-nil),
        parse-url (codes "/") refl refl (clone_url owner name ++ codes "/")
            (rw e at (trim-url (name ++ dot_git) b'/' [] refl)) (sym e),
      )
