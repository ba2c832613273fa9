-- ===== src/Node/Overlay/Rounds.antt =====
-- The rounds that handling a packet takes.
use hopscotch.Common.Bytes.{Bytes}
use hopscotch.Session.{Session}
use hopscotch.Node.{Node}
