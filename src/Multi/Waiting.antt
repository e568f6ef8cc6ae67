-- ===== src/Multi/Waiting.antt =====
-- The wait of `select` keeps the invariant.
use tema2_pc_client_server_t.Base.{
  ◌≡◌, refl, Option, none, some, List, [], ◌∷◌, All, Holds, Holds-ok, Holds-then,
}
use tema2_pc_client_server_t.Base.Map.{int_key}
use tema2_pc_client_server_t.Framing.{Memory}
use tema2_pc_client_server_t.Multi.{MultiSocket, Holder, Ready, select, scan}
use tema2_pc_client_server_t.Multi.Invariant.{IsSound}
use tema2_pc_client_server_t.Multi.Scan.{AllBytes}
use tema2_pc_client_server_t.Multi.Reach.{scans, Step-IsSound}

-- What arrives on sockets are bytes.
abbrev pub IsAnswer : Option Ready → Type 0
IsAnswer none = Unit
IsAnswer (some r) = AllBytes r

pub select-IsSound :
    (mem : Memory) (answers : List (Option Ready)) (m : MultiSocket)
    → All IsAnswer answers
    → IsSound m
    → Holds IsSound (select mem answers m)
unfolding select
select-IsSound mem [] m h v = go m.sock_queue refl
  where
    go : (q : List Holder) → m.sock_queue ≡ q → Holds IsSound (select mem [] m)
    go [] e = rw (e, select) (λ x e. cc)
    go (x ∷ q) e = rw (e, select) (Holds-ok IsSound m v)
select-IsSound mem (answer ∷ rest) m h v =
    go (λ c w. select-IsSound mem rest c h.1 w) m.sock_queue refl answer h.0
  where
    go :
        ((c : MultiSocket) → IsSound c → Holds IsSound (select mem rest c))
        → (q : List Holder) → m.sock_queue ≡ q
        → (a : Option Ready) → IsAnswer a
        → Holds IsSound (select mem (a ∷ rest) m)
    go later (x ∷ q) e a b = rw (e, select) (Holds-ok IsSound m v)
    go later [] e none b = rw (e, select) (λ x e. cc)
    go later [] e (some r) b =
        rw (e, select)
          (Holds-then IsSound IsSound (scan mem r m) _ (λ m' s. Step-IsSound (scans mem r b s) v)
            later)
