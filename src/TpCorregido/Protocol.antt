-- ===== src/TpCorregido/Protocol.antt =====
-- What goes over the FIFO of material-clases/TP_Corregido, without arrays: the text of one `read`,
-- the frames of the Writer, and what the Reader makes of one message.
use cese_sopg_github_io.Common.{
  ℕ, ◌-◌, ◌≡◌, refl, ap, Bool, true, false, [], ◌∷◌, ◌++◌, if◌then◌else◌, ltb, ◌==◌, length, take,
  drop, arith, ◌≤◌, length-drop, length-take, Bool-cases, inl, inr,
}
use cese_sopg_github_io.Memory.{Bytes, codes, until_nul, until_nul-append, length-until_nul}
use cese_sopg_github_io.Posix.{Signal, sigusr1}

-- Without the last byte, the newline of a short line; 20 bytes are kept whole.
abbrev pub cut : Bytes → Bytes
cut bytes = if ltb (length bytes) 20 then take (length bytes - 1) bytes else bytes

abbrev pub payload : Bytes → Bytes
payload bytes = until_nul (cut bytes)

abbrev pub data_frame : Bytes → Bytes
data_frame text = codes "DATA: " ++ text

abbrev pub digit : Signal → ℕ
digit sigusr1 = b'1'
digit _ = b'2'

abbrev pub sign_frame : Signal → Bytes
sign_frame sig = codes "SIGN: " ++ (digit sig ∷ [])

-- Where the Reader puts a message, and which text of it.
pub data Route : Type 0 where
  to_log to_signals : Bytes → Route
  unknown : Route

abbrev pub starts_with : Bytes → Bytes → Bool
starts_with [] bs = true
starts_with (h ∷ hs) [] = false
starts_with (h ∷ hs) (b ∷ bs) = if h == b then starts_with hs bs else false

unfoldable pub route : Bytes → Route
route bytes =
    if starts_with (codes "DATA: ") bytes
    then to_log (until_nul (drop 6 bytes))
    else if starts_with (codes "SIGN: ") bytes
    then to_signals (until_nul (drop 6 bytes))
    else unknown

-- The text that is written for a message, before its newline.
abbrev pub routed_text : Route → Bytes
routed_text (to_log text) = text
routed_text (to_signals text) = text
routed_text unknown = []

-- A frame reaches the file of its header, with the text that was framed.
pub route-data_frame :
    (text : Bytes) → until_nul text ≡ text → route (data_frame text) ≡ to_log text
unfolding route
route-data_frame text clean = rw clean

-- What stands behind a text in one message is taken for a part of it.
pub route-merged :
    (p m : Bytes) → until_nul p ≡ p → route (data_frame p ++ m) ≡ to_log (p ++ until_nul m)
unfolding route
route-merged p m clean = ap to_log (until_nul-append p m clean)

pub route-sign_frame : (sig : Signal) → route (sign_frame sig) ≡ to_signals (digit sig ∷ [])
unfolding route
route-sign_frame sigusr1 = refl
route-sign_frame _ = refl

pub starts_with-split : (h bs : Bytes) → starts_with h bs ≡ true → bs ≡ h ++ drop (length h) bs
starts_with-split [] bs e = refl
starts_with-split (h ∷ hs) [] e = cc
starts_with-split (h ∷ hs) (b ∷ bs) e = ground (arith, starts_with-split hs bs)

-- The three ways that `route` can go, with the tests that decide it.
pub data Routing (bytes : Bytes) : Type 0 where
  as_data :
      starts_with (codes "DATA: ") bytes ≡ true
      → route bytes ≡ to_log (until_nul (drop 6 bytes))
      → Routing bytes
  as_sign :
      starts_with (codes "DATA: ") bytes ≡ false
      → starts_with (codes "SIGN: ") bytes ≡ true
      → route bytes ≡ to_signals (until_nul (drop 6 bytes))
      → Routing bytes
  as_unknown :
      starts_with (codes "DATA: ") bytes ≡ false
      → starts_with (codes "SIGN: ") bytes ≡ false
      → route bytes ≡ unknown
      → Routing bytes

pub routing : (bytes : Bytes) → Routing bytes
unfolding route
routing bytes = elim (Bool-cases (starts_with (codes "DATA: ") bytes)) [
  | inl is_data ↦ as_data is_data (rw is_data)
  | inr not_data ↦ elim (Bool-cases (starts_with (codes "SIGN: ") bytes)) [
    | inl is_sign ↦ as_sign not_data is_sign (rw (not_data, is_sign))
    | inr not_sign ↦ as_unknown not_data not_sign (rw (not_data, not_sign))
  ]
]

pub length-routed_text :
    (bytes : Bytes) → length bytes ≤ 26 → length (routed_text (route bytes)) ≤ 20
length-routed_text bytes h = bound (routing bytes)
  where
    text_le : length (until_nul (drop 6 bytes)) ≤ 20
    text_le = omega (arith, length-until_nul (drop 6 bytes), length-drop 6 bytes)

    bound : Routing bytes → length (routed_text (route bytes)) ≤ 20
    bound (as_data _ e) = rw e text_le
    bound (as_sign _ _ e) = rw e text_le
    bound (as_unknown _ _ e) = rw e (omega arith)

pub length-payload : (bytes : Bytes) → length bytes ≤ 20 → length (payload bytes) ≤ 20
length-payload bytes h =
    ground (arith, length-until_nul (cut bytes), length-take (length bytes - 1) bytes)
