-- ===== src/Filepath.antt =====
-- `path/filepath` of Go on Unix: `Clean` and `Join`.
pub mod Names
use proxmox_eventbus.Prelude.{
  Bool, true, false, ◌&&◌, ◌||◌, not, List, [], ◌∷◌, ◌++◌, Bytes, codes, ◌==◌, bytes_eq,
  if◌then◌else◌, reverse,
}
use proxmox_eventbus.Strings.Affix.{has_prefix}
use proxmox_eventbus.Strings.Split.{split, join}

-- `..` behind the elements that stay, the last one first
up : Bool → List Bytes → List Bytes
up rooted [] = if rooted then [] else codes ".." ∷ []
up rooted (e ∷ es) = if e == codes ".." then codes ".." ∷ e ∷ es else es

-- the elements that stay behind the next one, the last one first
keep : Bool → List Bytes → Bytes → List Bytes
unfolding up
keep rooted kept e =
    if e == [] || e == codes "." then kept else if e == codes ".." then up rooted kept else e ∷ kept

elements : Bool → List Bytes → List Bytes → List Bytes
unfolding keep
elements rooted kept [] = kept
elements rooted kept (e ∷ es) = elements rooted (keep rooted kept e) es

clean_as : Bool → Bytes → Bytes
unfolding elements join split
clean_as rooted path =
    let rest = join (reverse (elements rooted [] (split path b'/'))) (codes "/") in
    if rooted then codes "/" ++ rest else if rest == [] then codes "." else rest

-- `filepath.Clean`
unfoldable pub clean : Bytes → Bytes
unfolding clean_as has_prefix
clean path = clean_as (has_prefix path (codes "/")) path

-- `filepath.Join` of two elements
unfoldable pub join_path : Bytes → Bytes → Bytes
unfolding clean
join_path [] [] = []
join_path [] (c ∷ name) = clean (c ∷ name)
join_path (c ∷ dir) name = clean ((c ∷ dir) ++ codes "/" ++ name)
