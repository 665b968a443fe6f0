-- ===== src/Trap/UserStack.antt =====
-- A kernel store at a user address, which the processor translates by the loaded directory: both
-- entries must be present and writable, since the kernel runs with write protection on.
use cs3510_operating_systems.Common.{
  Bool, Option, ℕ, none, some, List, ◌^◌, ◌+◌, ◌*◌, ◌/◌, ◌%◌, ◌==◌, ◌&&◌, ◌∷◌, if◌then◌else◌, [],
}
use cs3510_operating_systems.Layout.{flag, pte_p, pte_w, pgnum, pdx, ptx, pgoff, pte_addr, u32}
use cs3510_operating_systems.State.{Kernel, M, pure, fail, ◌>>◌}
use cs3510_operating_systems.Pmap.Page.{store}
use cs3510_operating_systems.Pmap.Table.{pte_ptr}

abbrev writable : ℕ → Bool
writable entry = flag entry pte_p && flag entry pte_w

-- The page that the address lies in, where the kernel may write to it.
unfoldable pub translate : ℕ → Kernel → Option ℕ
translate va k =
    let pde : ℕ = k.word (pgnum k.cr3) (pdx va) in
    let pte : ℕ = k.word (pgnum (pte_addr pde)) (ptx va) in
    if writable pde && writable pte then some (pgnum (pte_addr pte)) else none

-- A byte within a word, the lowest first.
unfoldable pub put_byte : ℕ → ℕ → ℕ → ℕ
put_byte w i b = let low : ℕ = 256 ^ i in w / (low * 256) * (low * 256) + b % 256 * low + w % low

abbrev pub store_in : ℕ → ℕ → Option ℕ → M (Unit {0})
store_in i v none = fail
store_in i v (some n) = store (pte_ptr n i) v

abbrev pub store_byte_in : ℕ → ℕ → Option ℕ → M (Unit {0})
store_byte_in va b none = fail
store_byte_in va b (some n) =
    λ k. store (pte_ptr n (pgoff va / 4)) (put_byte (k.word n (pgoff va / 4)) (va % 4) b) k

unfoldable pub store_user_byte : ℕ → ℕ → M (Unit {0})
unfolding translate pgoff put_byte
store_user_byte va b k = store_byte_in va b (translate va k) k

unfoldable pub store_aligned : ℕ → ℕ → M (Unit {0})
unfolding translate pgoff
store_aligned va w k = store_in (pgoff va / 4) w (translate va k) k

unfoldable pub store_unaligned : ℕ → ℕ → M (Unit {0})
unfolding store_user_byte
store_unaligned va w = do
  store_user_byte va (w % 256)
  store_user_byte (u32 (va + 1)) (w / 256 % 256)
  store_user_byte (u32 (va + 2)) (w / 65536 % 256)
  store_user_byte (u32 (va + 3)) (w / 16777216 % 256)

-- A 32-bit store; one that is not aligned goes byte by byte, and may cross a page.
unfoldable pub store_user : ℕ → ℕ → M (Unit {0})
unfolding store_aligned store_unaligned
store_user va w = if va % 4 == 0 then store_aligned va w else store_unaligned va w

-- Words one behind the other.
unfoldable pub store_words : ℕ → List ℕ → M (Unit {0})
unfolding store_user
store_words va [] = pure tt
store_words va (w ∷ ws) = store_user va w >> store_words (u32 (va + 4)) ws
