-- ===== src/Paging/Frames.antt =====
-- vm.c: the frames of the pool, and what the user sees of a page.
use rv32i_pipeline_fpga.Common.{
  ℕ, ◌*◌, ◌^◌, ◌≤◌, ◌<◌, ◌≡◌, ◌≢◌, sym, ◌∙◌, arith, Option, none, some, List, [], ◌∷◌,
  if◌then◌else◌, ◌==◌, update, update-eq, update-ne, subst, Bool-cases, refl, false, inl, inr,
}
use rv32i_pipeline_fpga.Paging.{Vm, frame_of, home, max_test_pages, page_size}

-- What a user page holds: its frame, or the frame that it will come from.
abbrev pub view : Vm → ℕ → ℕ → ℕ
view vm page =
    if vm.user_llpt page == 0 then vm.phys (home page) else vm.phys (frame_of (vm.user_llpt page))

pub view-home : (vm : Vm) (q : ℕ) → vm.user_llpt q ≡ 0 → view vm q ≡ vm.phys (home q)
view-home vm q e = rw (e) refl

pub view-frame :
    (vm : Vm) (q : ℕ) → vm.user_llpt q ≢ 0 → view vm q ≡ vm.phys (frame_of (vm.user_llpt q))
view-frame vm q e = let test : (vm.user_llpt q == 0) ≡ false = ground arith in rw (test) refl

-- The nodes from `ptr` on are nodes of `freelist_nodes` with these frames.
abbrev pub Pool : (ℕ → ℕ) → (ℕ → Option ℕ) → Option ℕ → List ℕ → Type 0
Pool addr next ptr [] = ptr ≡ none
Pool addr next ptr (frame ∷ frames) =
    (node : ℕ) × (ptr ≡ some node)
    × (max_test_pages ≤ node)
    × (addr node ≡ frame * page_size)
    × Pool addr next (next node) frames

abbrev pub IsNew : ℕ → List ℕ → Type 0
IsNew frame [] = 0 ≤ 0
IsNew frame (other ∷ frames) = (frame ≢ other) × IsNew frame frames

-- A frame that no user page has or comes from.
abbrev pub IsUnused : (ℕ → ℕ) → ℕ → Type 0
IsUnused llpt frame =
    (page : ℕ)
    → page < max_test_pages
    → (home page ≢ frame) × ((llpt page ≢ 0) → frame_of (llpt page) ≢ frame)

abbrev pub AreFrames : (ℕ → ℕ) → List ℕ → Type 0
AreFrames llpt [] = 0 ≤ 0
AreFrames llpt (frame ∷ frames) =
    (0 < frame)
    × (frame < 2 ^ 44)
    × IsNew frame frames
    × IsUnused llpt frame
    × AreFrames llpt frames

-- The pool has the frames `frames`.
pub record IsPaged (vm : Vm) (frames : List ℕ) : Type 0 where
  pub pool : Pool vm.node_addr vm.node_next vm.freelist_head frames
  pub distinct : AreFrames vm.user_llpt frames
  pub unmapped : (page : ℕ) → page < max_test_pages → vm.user_llpt page ≡ 0 → vm.node_addr page ≡ 0

-- A change of a user page's node does not change the pool.
pub Pool-update :
    (addr : ℕ → ℕ) (next : ℕ → Option ℕ) (ptr : Option ℕ) (frames : List ℕ) (page v : ℕ)
    (after : Option ℕ)
    → page < max_test_pages
    → Pool addr next ptr frames
    → Pool (update addr page v) (update next page after) ptr frames
Pool-update addr next ptr [] page v after bound pool = pool
Pool-update addr next ptr (frame ∷ frames) page v after bound (node, at, high, holds, rest) =
    let other : page ≢ node = λ e. absurd (omega arith) in
    (
      node,
      at,
      high,
      update-ne addr page v node other ∙ holds,
      subst (λ p. Pool (update addr page v) (update next page after) p frames)
          (sym (update-ne next page after node other))
          (Pool-update addr next (next node) frames page v after bound rest),
    )

IsUnused-update :
    (llpt : ℕ → ℕ) (frame page pte : ℕ)
    → frame_of pte ≢ frame
    → IsUnused llpt frame
    → IsUnused (update llpt page pte) frame
IsUnused-update llpt frame page pte differ unused q bound = elim (Bool-cases (page == q)) [
  | inl e ↦ rw (update-eq llpt page pte q (ground arith)) ((unused q bound).0, λ _. differ)
  | inr e ↦ rw (update-ne llpt page pte q (ground arith)) (unused q bound)
]

-- Frames stay unused when a page gets another one.
pub AreFrames-update :
    (llpt : ℕ → ℕ) (frames : List ℕ) (page pte : ℕ)
    → IsNew (frame_of pte) frames
    → AreFrames llpt frames
    → AreFrames (update llpt page pte) frames
AreFrames-update llpt [] page pte new all = all
AreFrames-update llpt (frame ∷ frames) page pte (differ, new) (above, bound, alone, unused, all) = (
  above,
  bound,
  alone,
  IsUnused-update llpt frame page pte differ unused,
  AreFrames-update llpt frames page pte new all,
)
