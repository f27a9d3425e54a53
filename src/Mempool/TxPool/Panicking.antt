-- ===== src/Mempool/TxPool/Panicking.antt =====
-- mempool.go: when maybeAcceptTransaction panics.
use cash_prototype.Mempool.TxPool.{TxPool}
