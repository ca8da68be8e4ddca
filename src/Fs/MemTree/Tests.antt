-- ===== src/Fs/MemTree/Tests.antt =====
-- A small tree of kernel/fs/memfs.cpp: the root at 1 has the directory `a` at 2, which has the file
-- `b` at 3.
use wandos.Base.{ℕ, ◌≡◌, ◌⊎◌, refl, false, Option, none, some, List, [], ◌∷◌}
use wandos.Base.Chain.{update, has}
use wandos.Base.Int.{ℤ, negsuc}
use wandos.Text.CString.{content, strchr, strlen, strcmp, strrchr}
use wandos.Fs.MemTree.{
  Inode, FileType, ft_dir, ft_reg, find_inode, find_from, find_child, skip_slashes, component,
  component_name, mkdir, create_inode, unlink, remove_child, unlink_after,
}
use wandos.Fs.MemTree.Slashes.{find_inode-no_slash}

abbrev inode : List ℕ → FileType → ℕ → ℕ → ℕ → Inode
inode name type parent children next = record {
  name = name;
  type = type;
  mode = 493;
  file = record { bytes = []; size = 0; capacity = 0 };
  parent = parent;
  children = children;
  next = next;
}

abbrev tree : ℕ → Inode
tree =
    update
      (update (update (λ s. inode [] ft_reg 0 0 0) 1 (inode (0 ∷ []) ft_dir 0 2 0)) 2
        (inode (b'a' ∷ 0 ∷ []) ft_dir 1 3 0))
      3 (inode (b'b' ∷ 0 ∷ []) ft_reg 2 0 0)

abbrev path_b : List ℕ
path_b = b'/' ∷ b'a' ∷ b'/' ∷ b'b' ∷ 0 ∷ []

found_b : find_inode 9 path_b 1 tree ≡ some 3
unfolding find_inode find_from find_child skip_slashes component component_name strchr strlen strcmp
found_b = refl

find_inode-no_slash_example : (◌≡◌ {A = ℕ} 1 3) ⊎ (has b'/' (content (tree 3).name) ≡ false)
find_inode-no_slash_example = find_inode-no_slash 9 path_b 1 tree 2 found_b

-- The file is gone after `unlink`, and there is no second directory `a`.
abbrev lookup_after : Option (ℤ × (ℕ → Inode)) → Option ℕ
lookup_after none = none
lookup_after (some r) = find_inode 9 path_b 1 r.1

unlinked : lookup_after (unlink 9 path_b 1 tree) ≡ some 0
unfolding unlink find_inode find_from find_child skip_slashes component component_name strchr strlen
    strcmp remove_child unlink_after
unlinked = refl

abbrev result : Option (ℤ × (ℕ → Inode)) → Option ℤ
result none = none
result (some r) = some r.0

no_second : result (mkdir 9 (b'/' ∷ b'a' ∷ 0 ∷ []) 4 1 tree) ≡ some (negsuc 0)
unfolding mkdir find_inode find_from find_child skip_slashes component component_name strchr strlen
    strcmp strrchr create_inode
no_second = refl
