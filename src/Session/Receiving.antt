-- ===== src/Session/Receiving.antt =====
-- Messages that arrive, in src/xmpp_p2p_chat/connection_service/session.py.
use serverless_xmpp.Base.Table
