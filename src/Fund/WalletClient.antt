-- ===== src/Fund/WalletClient.antt =====
-- payfund_app/modules/fund/infra/wallet_client.py: the wallet of the same process behind the port.
pub mod Contract
use diddi_pay_backend.Wallet.Store.{Store}
use diddi_pay_backend.Wallet.Gateways.{Environment}
use diddi_pay_backend.Wallet.UseCases.Pin.{verifier_pin_utilisateur}
use diddi_pay_backend.Wallet.Service.{
  debiter, crediter, ouvrir_compte_technique, solde, compte_de_utilisateur,
}
use diddi_pay_backend.Fund.Ports.{WalletServicePort}

-- `get_wallet_service`
unfoldable pub get_wallet_service : Environment → WalletServicePort Store
get_wallet_service env = record {
  verifier_pin_utilisateur = verifier_pin_utilisateur env;
  debiter = debiter;
  crediter = crediter;
  ouvrir_compte_technique = ouvrir_compte_technique;
  solde = solde;
  compte_de_utilisateur = compte_de_utilisateur;
}
