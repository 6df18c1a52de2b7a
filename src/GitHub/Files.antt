-- ===== src/GitHub/Files.antt =====
-- The files of the mock client (pkg/github/client.go).
use cloud_agent.Common.{
  ℕ, String, Bool, Option, none, some, List, [], ◌∷◌, ◌==◌, ◌&&◌, if◌then◌else◌, Result, ok, err,
  ◌≡◌, refl, sym, inl, inr, arith, eq_iff, Bool-cases, Option-cases,
}
use cloud_agent.GitHub.Mock.{
  Map, lookup, insert, or_empty, MockClient, find_file, get_file, set_file,
}

lookup-insert :
    {A : Type 0} (key other : String) (value : A) (m : Map A)
    → lookup other (insert key value m) ≡ (if key == other then some value else lookup other m)
unfolding lookup insert
lookup-insert key other value [] = ground arith
lookup-insert key other value ((k, v) ∷ m) =
    ground (arith, lookup-insert key other value m, eq_iff k key, eq_iff k other, eq_iff key other)

-- the content that a look-up finds
abbrev pub found : {A : Type 0} → Result String A → Option A
found (ok a) = some a
found (err _) = none

-- what a key leads to in a map that may be missing
abbrev below : {A : Type 0} → Option (Map A) → String → Option A
below none key = none
below (some m) key = lookup key m

below-or_empty :
    {A : Type 0} (o : Option (Map A)) (key : String) → lookup key (or_empty o) ≡ below o key
unfolding lookup
below-or_empty none key = refl
below-or_empty (some m) key = refl

below-insert :
    {A : Type 0} (key other : String) (value : A) (o : Option (Map A))
    → below (some (insert key value (or_empty o))) other
      ≡ (if key == other then some value else below o other)
below-insert key other value o =
    rw (lookup-insert key other value (or_empty o), below-or_empty o other) refl

found-find_file :
    (owner repo path : String) (files : Option (Map (Map (Map (List ℕ)))))
    → found (find_file owner repo path files) ≡ below (below (below files owner) repo) path
unfolding find_file
found-find_file owner repo path none = refl
found-find_file owner repo path (some files) = elim (Option-cases (lookup owner files)) [
  | inl e ↦ ground arith
  | inr (repos, e) ↦ elim (Option-cases (lookup repo repos)) [
    | inl e1 ↦ ground arith
    | inr (paths, e1) ↦ elim (Option-cases (lookup path paths)) [
      | inl e2 ↦ ground arith
      | inr (content, e2) ↦ ground arith
    ]
  ]
]

found-get_file :
    (m : MockClient) (owner repo path : String)
    → m.get_file_err ≡ none
    → found (get_file owner repo path m) ≡ below (below (below m.files owner) repo) path
unfolding get_file
found-get_file m owner repo path fine = rw fine (found-find_file owner repo path m.files)

-- One level down: what an insertion under a key changes below it, it changes there and nowhere
-- else.
below-below-insert :
    {A : Type 0} (o : Option (Map (Map A))) (key other : String) (inner : Map A) (name : String)
    (b : Bool) (v : Option A)
    → lookup name inner ≡ (if b then v else below (below o key) name)
    → below (below (some (insert key inner (or_empty o))) other) name
      ≡ (if (key == other) && b then v else below (below o other) name)
below-below-insert o key other inner name b v changed = elim (Bool-cases (key == other)) [
  | inl same ↦
      let e : key ≡ other = ground (arith, eq_iff key other) in
      rw (below-insert key other inner o, same) (rw (sym e) changed)
  | inr differs ↦ rw (below-insert key other inner o, differs) refl
]

set_paths :
    (repos : Option (Map (Map (List ℕ)))) (repo path repo' path' : String) (content : List ℕ)
    → below
        (lookup repo' (
          insert repo
            (insert path content (or_empty (lookup repo (or_empty repos))))
            (or_empty repos)))
        path'
      ≡ (if (repo == repo') && (path == path')
          then some content
          else below (below repos repo') path')
set_paths repos repo path repo' path' content =
    below-below-insert repos repo repo' _ path' (path == path') (some content)
      (rw (below-or_empty repos repo) (below-insert path path' content (below repos repo)))

below-set_file :
    (m : MockClient) (owner repo path owner' repo' path' : String) (content : List ℕ)
    → below (below (below (set_file owner repo path content m).files owner') repo') path' ≡ (
        if (owner == owner') && ((repo == repo') && (path == path'))
        then some content
        else below (below (below m.files owner') repo') path')
unfolding set_file
below-set_file m owner repo path owner' repo' path' content = elim (Bool-cases (owner == owner')) [
  | inl same ↦
      let e : owner ≡ owner' = ground (arith, eq_iff owner owner') in
      rw
        (lookup-insert owner owner' _ (or_empty m.files), same, sym e, below-or_empty m.files owner)
        (set_paths (below m.files owner) repo path repo' path' content)
  | inr differs ↦
      rw (lookup-insert owner owner' _ (or_empty m.files), differs, below-or_empty m.files owner')
        refl
]

-- Where the client has no error set: a file that was set is the one found, and what is found at any
-- other place of a repository is what was found there before.
pub get_file-set_file :
    (m : MockClient) (owner repo path owner' repo' path' : String) (content : List ℕ)
    → m.get_file_err ≡ none
    → found (get_file owner' repo' path' (set_file owner repo path content m)) ≡ (
        if (owner == owner') && ((repo == repo') && (path == path'))
        then some content
        else found (get_file owner' repo' path' m))
unfolding set_file
get_file-set_file m owner repo path owner' repo' path' content fine =
    rw
      (
        found-get_file (set_file owner repo path content m) owner' repo' path' fine,
        found-get_file m owner' repo' path' fine,
      )
      (below-set_file m owner repo path owner' repo' path' content)
