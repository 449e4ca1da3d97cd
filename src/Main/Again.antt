-- ===== src/Main/Again.antt =====
-- The program of main.go started again on what it has left on the disk.
use ftpserver.Config.{Config}
use ftpserver.Server.{Server}
