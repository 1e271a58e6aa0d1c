-- ===== src/Server/Workers/Notices.antt =====
-- The loop that announces a change touches nothing but the messages that are out.
use robotdreams.Base.{ℕ, suc, Text, List, [], ◌∷◌, ◌++◌, arith}
use robotdreams.Messaging.{Envelope}
use robotdreams.Server.State.{Server, World, send, next_id}
use robotdreams.Server.Keeps.{Keeps, Keeps-then, Keeps-pure}
use robotdreams.Server.Workers.{announce, notice}

module _ (P : Server → Type 0) (minting : (s : Server) (n : ℕ) → P s → P (record s { minted = n }))
    (sending : (s : Server) (es : List Envelope) → P s → P (record s { sent = es })) where
  pub Keeps-send : (w : World) (env : Envelope) → Keeps P (send w env)
  unfolding send
  Keeps-send w env s p = ground (arith, sending s (s.sent ++ env ∷ []) p)

  pub Keeps-next_id : (w : World) → Keeps P (next_id w)
  unfolding next_id
  Keeps-next_id w s p = minting s (suc s.minted) p

  pub Keeps-announce :
      (w : World) (subject body : Text) (to : List Text) → Keeps P (announce w subject body to)
  unfolding announce
  Keeps-announce w subject body [] = Keeps-pure P tt
  Keeps-announce w subject body (k ∷ to) = Keeps-then P (next_id w) _ (Keeps-next_id w) (λ id.
      Keeps-then P (send w (notice w subject body id k)) _
        (Keeps-send w (notice w subject body id k)) (λ _. Keeps-announce w subject body to))
