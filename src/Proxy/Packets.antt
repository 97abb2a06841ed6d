-- ===== src/Proxy/Packets.antt =====
-- src/adn_server/application/proxy/packet_helpers.py and session_teardown.py.
use adn_dmr_peer_server.Prelude.{
  ℕ, ◌≡◌, Bool, true, false, ◌&&◌, ◌||◌, Option, none, some, [], ◌∷◌, ◌++◌, ltb, leb, length, take,
  drop, slice, length-take, length-drop, if◌then◌else◌, ◌==◌, bytes_eq, arith, Bool-cases, inl, inr,
  ◌∙◌, ◌+◌,
}
use adn_dmr_peer_server.Wire.{Bytes}

abbrev dmrd : Bytes
dmrd = b'D' ∷ b'M' ∷ b'R' ∷ b'D' ∷ []

abbrev dmra : Bytes
dmra = b'D' ∷ b'M' ∷ b'R' ∷ b'A' ∷ []

abbrev mstc : Bytes
mstc = b'M' ∷ b'S' ∷ b'T' ∷ b'C' ∷ []

abbrev mstn : Bytes
mstn = b'M' ∷ b'S' ∷ b'T' ∷ b'N' ∷ []

abbrev mstp : Bytes
mstp = b'M' ∷ b'S' ∷ b'T' ∷ b'P' ∷ []

abbrev rpta : Bytes
rpta = b'R' ∷ b'P' ∷ b'T' ∷ b'A' ∷ []

abbrev rptcl : Bytes
rptcl = b'R' ∷ b'P' ∷ b'T' ∷ b'C' ∷ b'L' ∷ []

abbrev rptk : Bytes
rptk = b'R' ∷ b'P' ∷ b'T' ∷ b'K' ∷ []

abbrev rptl : Bytes
rptl = b'R' ∷ b'P' ∷ b'T' ∷ b'L' ∷ []

abbrev rptc : Bytes
rptc = b'R' ∷ b'P' ∷ b'T' ∷ b'C' ∷ []

abbrev rpto : Bytes
rpto = b'R' ∷ b'P' ∷ b'T' ∷ b'O' ∷ []

abbrev rptp : Bytes
rptp = b'R' ∷ b'P' ∷ b'T' ∷ b'P' ∷ []

-- a packet from the master
unfoldable pub id_from_master : Bytes → Bytes → Option Bytes
id_from_master command datagram =
    if command == dmrd && leb 15 (length datagram)
    then some (slice 11 15 datagram)
    else if command == rpta && leb 10 (length datagram)
    then some (slice 6 10 datagram)
    else if command == mstn && leb 10 (length datagram)
    then some (slice 6 10 datagram)
    else if command == mstp && leb 11 (length datagram)
    then some (slice 7 11 datagram)
    else if command == mstc && leb 9 (length datagram)
    then some (slice 5 9 datagram)
    else none

-- a packet from a hotspot
unfoldable pub id_from_client : Bytes → Bytes → Option Bytes
id_from_client command datagram =
    if command == dmrd && leb 15 (length datagram)
    then some (slice 11 15 datagram)
    else if (command == dmra || command == rptl || command == rptk || command == rpto)
        && leb 8 (length datagram)
    then some (slice 4 8 datagram)
    else if command == rptc
    then (if leb 5 (length datagram) && take 5 datagram == rptcl
        then (if leb 9 (length datagram) then some (slice 5 9 datagram) else none)
        else if leb 8 (length datagram)
        then some (slice 4 8 datagram)
        else none)
    else if command == rptp && leb 11 (length datagram)
    then some (slice 7 11 datagram)
    else none

unfoldable pub peer_id_from_packet : Bytes → Bool → Option Bytes
unfolding id_from_master id_from_client
peer_id_from_packet datagram from_master =
    if ltb (length datagram) 8
    then none
    else if from_master
    then id_from_master (take 4 datagram) datagram
    else id_from_client (take 4 datagram) datagram

unfoldable pub master_teardown_packet : Bytes → Bytes
master_teardown_packet peer_id = rptcl ++ peer_id

-- A peer id, where there is one, has four bytes.
unfoldable pub FourBytes : Option Bytes → Type 0
FourBytes none = Unit
FourBytes (some id) = length id ≡ 4

field :
    (b : Bool) (a : ℕ) (datagram : Bytes) (y : Option Bytes)
    → FourBytes y
    → FourBytes (if b && leb (a + 4) (length datagram) then some (take 4 (drop a datagram)) else y)
unfolding FourBytes
field b a datagram y h = elim (Bool-cases (b && leb (a + 4) (length datagram))) [
  | inl fits ↦ rw fits (length-take 4 (drop a datagram) ∙ ground (arith, length-drop a datagram))
  | inr other ↦ rw other h
]

guarded :
    (b : Bool) (x y : Option Bytes) → FourBytes x → FourBytes y → FourBytes (if b then x else y)
guarded true x y h k = h
guarded false x y h k = k

nothing : FourBytes none
unfolding FourBytes
nothing = tt

master-FourBytes : (command datagram : Bytes) → FourBytes (id_from_master command datagram)
unfolding id_from_master
master-FourBytes command datagram = field (command == dmrd) 11 datagram _ (
    field (command == rpta) 6 datagram _ (
      field (command == mstn) 6 datagram _
        (field (command == mstp) 7 datagram _ (field (command == mstc) 5 datagram _ nothing))))

client-FourBytes : (command datagram : Bytes) → FourBytes (id_from_client command datagram)
unfolding id_from_client
client-FourBytes command datagram = field (command == dmrd) 11 datagram _ (
    field (command == dmra || command == rptl || command == rptk || command == rpto) 4 datagram _ (
      guarded (command == rptc) _ _
        (guarded (leb 5 (length datagram) && take 5 datagram == rptcl) _ _
          (field true 5 datagram none nothing) (field true 4 datagram none nothing))
        (field (command == rptp) 7 datagram _ nothing)))

-- What is taken from a packet as a peer id, from whatever side it comes, has four bytes.
pub peer_id_from_packet-FourBytes :
    (datagram : Bytes) (from_master : Bool) → FourBytes (peer_id_from_packet datagram from_master)
unfolding peer_id_from_packet
peer_id_from_packet-FourBytes datagram from_master = guarded (ltb (length datagram) 8) _ _ nothing (
    guarded from_master _ _ (master-FourBytes (take 4 datagram) datagram)
      (client-FourBytes (take 4 datagram) datagram))
