-- ===== src/Bnc/Client/Settling.antt =====
-- What a chunk of the site is to a client for whom a response is caught.
use cbbncd.Base.{ℕ, ◌≡◌, Bool, true, false, List, [], ◌∷◌, ◌++◌, some}
use cbbncd.Base.Text.{Bytes}
use cbbncd.Ftp.Buffer.{contents}
use cbbncd.Ftp.ResponseParser.{ResponseParser}
use cbbncd.Ftp.ResponseParser
use cbbncd.Ftp.ResponseParser.Status.{Judges}
use cbbncd.Traffic.World.{World, IoCall, send_data}
use cbbncd.Bnc.Client.{no_catch, no_origin, BncSessionClient, Outside, Outcome, done}
use cbbncd.Bnc.Client.Responses.{Reply, caught}
use cbbncd.Bnc.Client.Ledger.{Returns}

-- No branch of the switch touches the response parser.
module _ (p : ResponseParser) where
  abbrev Keeps : Reply → Type 0
  Keeps (modified, starttls, c, w) = c.responseparser ≡ p

-- The bytes are sent to the client behind the earlier calls, nothing is caught any more, and
-- nothing is left in the parser.
abbrev pub Replied : ℕ → Bytes → World → BncSessionClient × World → Type 0
Replied parent bytes w (c', w') =
    (later : List IoCall) × (w'.calls ≡ w.calls ++ send_data (some parent) bytes ∷ later)
    × (c'.responsecatch ≡ no_catch)
    × (c'.origincatch ≡ no_origin)
    × (contents c'.responseparser.buffer ≡ [])

-- What the client gets of a response: the new text for it, or if there is none the response.
abbrev pub reply_text : Bytes → Bytes → Bytes
reply_text [] response = response
reply_text (x ∷ modified) response = x ∷ modified

abbrev pub Answered :
    Outside → ℕ → BncSessionClient → World → ResponseParser → BncSessionClient × World → Type 0
Answered o parent c w p r =
    (modified : Bytes) × (starttls : Bool) × (c1 : BncSessionClient) × (w1 : World) × (caught o
        c.responsecatch p.databufcode (contents p.buffer) (record c { responseparser = p }) w
      ≡ done (modified, starttls, c1, w1))
    × Replied parent (reply_text modified (contents p.buffer)) w1 r

-- How the call ends by what the parser reports: it waits for more, or the client is answered, unless
-- an exception or undefined behaviour ends the program.
abbrev pub Ended :
    Outside
    → ℕ
    → BncSessionClient
    → World
    → Bool
    → ResponseParser
    → Outcome (BncSessionClient × World)
    → Type 0
Ended o parent c w false p r = r ≡ done (record c { responseparser = p }, w)
Ended o parent c w true p r = Returns (Answered o parent c w p) r

abbrev pub Settles :
    Outside → ℕ → ℕ → Bytes → BncSessionClient → World → Outcome (BncSessionClient × World) → Type 0
Settles o parent x chunk c w r =
    (complete : Bool) × (p : ResponseParser) × Judges c.responseparser x chunk (some (complete, p))
    × Ended o parent c w complete p r
