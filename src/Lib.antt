-- ===== src/Lib.antt =====
-- The messenger's Go client (client/internal): a double ratchet for end-to-end encryption, its
-- messages on the wire, the connection to the server, the database and the client that joins them.
--
-- The parts, from the bottom:
--   utils/utils.go: int64 as eight bytes (Utils, Utils/RoundTrip).
--   crypt: AES-GCM, X25519 key pairs (Crypt). The cryptographic packages that the code calls are the
--   record Crypto of Crypt/Library; what is relied on is CryptoLaws: lengths, that opening undoes
--   sealing, and that both sides of an exchange compute one secret. Nothing is assumed of secrecy.
--   contact/ratchet: HKDF (Ratchet/Hkdf), one chain of message keys (Ratchet/MessageRatchet), and
--   the turns of the root key (Ratchet/DhRatchet). A Go map that two structs share is a reference
--   into Maps, since a copy of a chain still writes to the chain's map. What gob stores of a ratchet,
--   with the maps as values, is in Ratchet/DhRatchet/Stored; where no two chains share a map
--   (Separate), the ratchet over references is compared with one over values (ByValue).
--   contact/message: the wire format (Message/Wire) and what Encrypt and Decrypt do with a ratchet
--   (Message/Cipher), also one that was stored and read again (Message/Cipher/Restart).
--   contact: the contacts (Contact).
--   tcpclient: packets (Tcp/Packet), requests and the listener (Tcp/Server), each call as one run;
--   any number of requests, with those of handlers, and the listener (Tcp/Server/Traffic), Close and
--   the listener (Tcp/Server/Shutdown), and dialling the server over the calls of net and time
--   (Tcp/Connection).
--   sqlite: the functions on settings, contacts and messages (Sqlite) over an engine, which is a
--   parameter; and the tables of sqlite.go with what the text of each statement does to them
--   (Sqlite/Schema), which is one such engine.
--   client/client.go: the operations of the client on all of these (Client, Client/Contacts,
--   Client/Messages, Client/Account), SendMessage with the memory behind the slice that it appends to
--   (Client/Sharing), any sequence of the operations (Client/Operations), what a restart finds
--   (Client/Persistence, and over gob Client/Stored), and a message on its way from one client to
--   another (Client/Reading, Client/Conversation). The server between them is a premise: it puts the
--   sender's hash in the place of the receiver's.
--   gioui: the router of the pages (Gui/Router), clicks and buttons (Gui/Click), the pages
--   (Gui/Loading, Gui/Login, Gui/Chats) and the program's events (Gui/App). Of a page there is the
--   state, and what each handler does to it and to the client; of the pages with inputs also which
--   widgets a frame shows. The other buttons are in Gui/Buttons, the text input in
--   Gui/Input, the icons in Gui/Icons, the dragged bar in Gui/Split, over float32 arithmetic as a
--   parameter.
--   client/cmd and client/cmd2: the four main functions (Commands). The two programs with the interface
--   have one text; the other two are trials without it.
-- An operation of the client calls the connection (SendReceive), the ratchet of one contact, which
-- it writes through a pointer, and the database, in the order of the code.
--
-- How the code is modelled. A function has the name of the Go function in snake case; a method takes
-- the receiver's state and gives the state back with the result. A result is ok, err, or crash for a
-- panic or log.Fatalf (Outcome). A `[]byte` is a list of numbers, a nil slice the empty list, except
-- where the code compares with nil (an Option). `int` and `int64` are ℤ, and the two conversions of
-- utils wrap around as the code does. Random bytes are arguments, or come from the network's world.
--
-- A slice is its bytes, so slices do not share memory, with three exceptions: the maps of skipped keys
-- (above), the contacts' ratchets (written through the pointer to the contact), and `append` in
-- SendMessage, which writes behind the hash in place if its slice has room. For that, Memory gives the
-- capacity of a slice and what becomes of a contact. send_plain_message is SendMessage for a hash
-- without room behind it, as md5.Sum makes one; the pages and the trials are modelled with it, so what a
-- page's message to a received contact may write over is not in their models. The append of
-- ReceiveMessagePayload is a concatenation; no program gives it a hash. A nil hash of a sender is NULL
-- in the database, where the rows would not conflict; the model compares it as the empty hash.
--
-- Bounds and fuel. ParseMessagesData loops on fuel, with the number of bytes: each round takes at
-- least one byte or ends, and that this is enough is proved. The lists and maps have no bound
-- besides the code's own (100 skipped keys for one message, 10 previous chains, 1 MB of data).
-- Connect dials ten times at most, so its loop is recursion on the tries that are left.
--
-- Not modelled: the interleaving of goroutines, except that of requests or Close with the listener
-- (elsewhere the answer that a request gets is all that the listener does meanwhile, and an event of
-- the interface is handled as one step); encoding/gob (the parameter Gob, and in the database any
-- marshal and unmarshal); the library that draws the interface and delivers its events, with the
-- places, distances and fonts that it is given; what the commands print; the server, in Elixir.
-- Examples holds tests and the theorems at concrete inputs over a toy cryptography.
mod Prelude
pub mod Outcome
pub mod Utils
pub mod Crypt
pub mod Ratchet
pub mod Message
pub mod Tcp
pub mod Contact
pub mod Sqlite
pub mod Client
pub mod Gui
mod Examples
pub mod Commands
