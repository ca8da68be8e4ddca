-- ===== src/Fs/MemTree.antt =====
-- kernel/fs/memfs.cpp, class MemFS: the tree of inodes. An inode's address is a number, and 0 is the
-- null pointer; `children` heads a list that goes on through `next`. The walks through such a list
-- run on `nodes` rounds of fuel, and `none` means that it ran out.
use wandos.Base.{
  ℕ, zero, suc, ◌+◌, ◌-◌, Bool, true, false, not, ◌&&◌, ◌||◌, Option, none, some, List, [], ◌∷◌,
  ◌++◌, leb, ◌==◌, if◌then◌else◌, take, drop, length,
}
use mathlib.Core.Option
use wandos.Base.Chain.{update}
use wandos.Base.Int.{ℤ, pos, negsuc}
use wandos.Text.CString.{byte, strlen, strchr, strrchr, strcmp, strncpy}
use wandos.Fs.MemFile.{MemFile}
pub mod Slashes
pub mod Tests

pub data FileType : Type 0 where
  ft_reg ft_dir : FileType

pub record Inode : Type 0 where
  pub name : List ℕ
  pub type : FileType
  pub mode : ℕ
  pub file : MemFile
  pub parent : ℕ
  pub children : ℕ
  pub next : ℕ

abbrev pub is_dir : FileType → Bool
is_dir ft_dir = true
is_dir ft_reg = false

-- `strcmp(a, b) == 0`
abbrev pub same_name : List ℕ → List ℕ → Bool
same_name a b = elim (strcmp a b) [ pos n ↦ n == 0 | negsuc n ↦ false ]

pub skip_slashes : List ℕ → List ℕ
skip_slashes [] = []
skip_slashes (c ∷ p) = if c == b'/' then skip_slashes p else c ∷ p

-- The first child from `child` on with the name, or 0.
pub find_child : ℕ → ℕ → List ℕ → (ℕ → Inode) → Option ℕ
find_child zero child name st = none
find_child (suc nodes) child name st =
    let rest = find_child nodes (st child).next name st in
    if child == 0 then some 0 else if same_name (st child).name name then some child else rest

-- The length of the first component of a path.
pub component : List ℕ → ℕ
component p = elim (strchr p b'/') [ none ↦ strlen p | some k ↦ k ]

-- `char name[256]` after the component is copied to it.
pub component_name : List ℕ → List ℕ
unfolding component
component_name p = take (component p) p ++ 0 ∷ []

pub find_from : ℕ → ℕ → List ℕ → ℕ → (ℕ → Inode) → Option ℕ
unfolding skip_slashes component_name
find_from zero nodes path current st = none
find_from (suc fuel) nodes path current st =
    let p = skip_slashes path in
    if byte p == 0
    then some current
    else if leb 256 (component p)
    then some 0
    else (elim (find_child nodes (st current).children (component_name p) st) [
      | none ↦ none
      | some zero ↦ some 0
      | some (suc found) ↦ find_from fuel nodes (drop (component p) p) (suc found) st
    ])

-- Each round of the loop over the path takes a byte at least.
pub find_inode : ℕ → List ℕ → ℕ → (ℕ → Inode) → Option ℕ
unfolding find_from
find_inode nodes path root st = find_from (suc (length path)) nodes path root st

-- The inode at the address `new`, which `operator new` gave.
pub create_inode : ℕ → List ℕ → FileType → (ℕ → Inode) → ℕ → Inode
create_inode new name type st = update st new (record {
  name = strncpy (st new).name name 255;
  type = type;
  mode = 493;
  file = record { bytes = []; size = 0; capacity = 0 };
  parent = 0;
  children = 0;
  next = 0;
})

-- The inode at the head of the list of its parent's children.
abbrev pub attach : ℕ → ℕ → (ℕ → Inode) → ℕ → Inode
attach parent child st =
    let linked =
      update st child (record (st child) { parent = parent; next = (st parent).children }) in
    update linked parent (record (linked parent) { children = child })

-- 0 for success and -1 for failure; `none` where the fuel ran out.
pub mkdir : ℕ → List ℕ → ℕ → ℕ → (ℕ → Inode) → Option (ℤ × (ℕ → Inode))
unfolding find_inode find_child create_inode
mkdir nodes path new root st = elim (strrchr path b'/') [
  | none ↦ some (negsuc 0, st)
  | some parent_len ↦
      let name = drop (parent_len + 1) path in
      if leb 256 parent_len
      then some (negsuc 0, st)
      else (elim (find_inode nodes (take parent_len path ++ 0 ∷ []) root st) [
        | none ↦ none
        | some parent ↦
            if parent == 0 || not (is_dir (st parent).type) || byte name == 0
            then some (negsuc 0, st)
            else (elim (find_child nodes (st parent).children name st) [
              | none ↦ none
              | some zero ↦ some (pos 0, attach parent new (create_inode new name ft_dir st))
              | some (suc there) ↦ some (negsuc 0, st)
            ])
      ])
]

-- The loop that looks for the child before `file`.
pub unlink_after : ℕ → ℕ → ℕ → (ℕ → Inode) → Option (ℕ → Inode)
unlink_after zero prev file st = none
unlink_after (suc nodes) prev file st =
    let rest = unlink_after nodes (st prev).next file st in
    if prev == 0
    then some st
    else if (st prev).next == file
    then some (update st prev (record (st prev) { next = (st file).next }))
    else rest

-- The tree without the child `file` of `parent`.
pub remove_child : ℕ → ℕ → ℕ → (ℕ → Inode) → Option (ℕ → Inode)
unfolding unlink_after
remove_child nodes parent file st =
    if (st parent).children == file
    then some (update st parent (record (st parent) { children = (st file).next }))
    else unlink_after nodes (st parent).children file st

abbrev pub removed : Option (ℕ → Inode) → Option (ℤ × (ℕ → Inode))
removed r = Option.map (λ st. (pos 0, st)) r

pub unlink : ℕ → List ℕ → ℕ → (ℕ → Inode) → Option (ℤ × (ℕ → Inode))
unfolding find_inode remove_child
unlink nodes path root st =
    if byte path == 0 then some (negsuc 0, st) else (elim (find_inode nodes path root st) [
      | none ↦ none
      | some file ↦
          if file == 0 || is_dir (st file).type || (st file).parent == 0
          then some (negsuc 0, st)
          else removed (remove_child nodes (st file).parent file st)
    ])

pub rmdir : ℕ → List ℕ → ℕ → (ℕ → Inode) → Option (ℤ × (ℕ → Inode))
unfolding find_inode remove_child
rmdir nodes path root st =
    if byte path == 0 || same_name path (b'/' ∷ 0 ∷ [])
    then some (negsuc 0, st)
    else (elim (find_inode nodes path root st) [
      | none ↦ none
      | some dir ↦
          if dir == 0
            || not (is_dir (st dir).type)
            || not ((st dir).children == 0)
            || (st dir).parent == 0
          then some (negsuc 0, st)
          else removed (remove_child nodes (st dir).parent dir st)
    ])
