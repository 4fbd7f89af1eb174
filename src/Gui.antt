-- ===== src/Gui.antt =====
-- client/internal/gioui: the pages of the graphical interface, their state and what the user's input
-- does to them. The drawing library (Gio) is not modelled: an event is a call of the handler that the
-- library makes.
pub mod Router
pub mod Click
pub mod Split
pub mod Buttons
pub mod Icons
pub mod Input
pub mod Chats
pub mod Login
pub mod Loading
pub mod App
