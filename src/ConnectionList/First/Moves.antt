-- ===== src/ConnectionList/First/Moves.antt =====
-- Scrolling and resizing the window of a list leave in it the connections that come first.
-- Source/ConnectionList.cpp.
use conntop.Connection.{Connection}
use conntop.ConnectionList.View.{View}
use conntop.ConnectionList.Valid.{Valid}
