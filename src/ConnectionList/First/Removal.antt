-- ===== src/ConnectionList/First/Removal.antt =====
-- Removing a connection leaves those in a list that come first.
-- Source/ConnectionList.cpp.
use conntop.Connection.{Connection}
use conntop.ConnectionList.View.{View}
use conntop.ConnectionList.Valid.{Valid}
