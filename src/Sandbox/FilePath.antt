-- ===== src/Sandbox/FilePath.antt =====
-- `filepath.Join` of two elements, on paths with "/".
use Prim.Native.Char.{Char, code}
use Prim.Native.String.{◌++◌}
use cloud_agent.Common.{String, Bool, false, List, [], ◌∷◌, ◌==◌, nat_eq, if◌then◌else◌, is_nil}

is_slash : Char → Bool
is_slash c = nat_eq (code c) b'/'

-- the parts between slashes: the first one, and the rest
split : String → String × List String
unfolding is_slash
split String.[] = ("", [])
split (String.◌∷◌ c s) =
    let (part, more) = split s in
    if is_slash c then ("", part ∷ more) else (String.◌∷◌ c part, more)

-- The stack of parts kept so far, newest first, when one more comes.
push : Bool → String → List String → List String
push rooted part kept =
    if part == ""
    then kept
    else if part == "."
    then kept
    else if part == ".."
    then (elim kept [
      | [] ↦ if rooted then [] else ".." ∷ []
      | last ∷ before ↦ if last == ".." then ".." ∷ last ∷ before else before
    ])
    else part ∷ kept

kept_of : Bool → List String → List String → List String
unfolding push
kept_of rooted kept [] = kept
kept_of rooted kept (part ∷ parts) = kept_of rooted (push rooted part kept) parts

-- the parts, newest first, with slashes between them
slashed : List String → String
slashed [] = ""
slashed (part ∷ []) = part
slashed (part ∷ more) = slashed more ++ "/" ++ part

is_rooted : String → Bool
unfolding is_slash
is_rooted String.[] = false
is_rooted (String.◌∷◌ c _) = is_slash c

-- `filepath.Clean`
unfoldable pub clean : String → String
unfolding split kept_of slashed is_rooted
clean path =
    let (part, more) = split path in
    let rooted = is_rooted path in
    let kept = kept_of rooted [] (part ∷ more) in
    if rooted then "/" ++ slashed kept else if is_nil kept then "." else slashed kept

-- `filepath.Join(directory, name)`, for a name that is not empty
unfoldable pub join : String → String → String
unfolding clean
join directory name = clean (if directory == "" then name else directory ++ "/" ++ name)
