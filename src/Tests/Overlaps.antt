-- ===== src/Tests/Overlaps.antt =====
-- Samples for overlapping logins.
use ftpserver.Base.{[], ◌∷◌, Text, bytes}
use ftpserver.Server.{Server, new_server}
use ftpserver.Tests.{portal, one_portal}

-- Eve chooses the portal, and opens it.
abbrev chosen_server : Server Text
chosen_server =
    new_server
      (record one_portal { heap = record portal { user = bytes "eve"; pass = bytes "x" } ∷ [] })
